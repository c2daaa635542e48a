-- ===== src/K8sutils/Volumes.antt =====
-- HasVolume, HasMountPath and CheckVolumes: pkg/k8sutils/k8sutils.go.
pub mod Laws
use starrocks_kubernetes_ope.Base.{
  String, List, [], ◌∷◌, Bool, Result, ok, err, failure, split, contains, length, ltb, any, last_or,
  if◌then◌else◌, ◌<>◌, ◌&&◌, ◌||◌, map,
}
use starrocks_kubernetes_ope.Base.Results.Fallible.{◌>>=◌, ◌>>◌}
use starrocks_kubernetes_ope.Kube.{Volume, VolumeMount}
use text.Mathlib.Text.{◌==◌}

abbrev same_suffix : (default_name name : String) → Bool
same_suffix default_name name =
    let parts1 = split b'-' default_name in
    let parts2 = split b'-' name in
    ltb 1 (length parts1) && ltb 1 (length parts2) && last_or "" parts1 == last_or "" parts2

-- HasVolume
unfoldable pub has_volume : List Volume → (default_volume_name : String) → Bool
unfolding split
has_volume volumes name = any (λ v. v.name == name || same_suffix name v.name) volumes

-- HasMountPath
unfoldable pub has_mount_path : List VolumeMount → (default_mount_path : String) → Bool
unfolding contains
has_mount_path mounts path = any (λ m. contains m.mount_path path) mounts

abbrev pub member : String → List String → Bool
member x xs = any (λ y. y == x) xs

-- A loop of CheckVolumes over the map of the texts seen so far.
unfoldable pub check_distinct :
    (what : String) (seen : List String) → List String → Result (Unit {0})
check_distinct what seen [] = ok tt
check_distinct what seen (x ∷ xs) =
    let rest = check_distinct what (x ∷ seen) xs in
    if member x seen then err (failure (what <> " " <> x <> " is duplicated")) else rest

-- CheckVolumes
unfoldable pub check_volumes : List Volume → List VolumeMount → Result (Unit {0})
unfolding check_distinct
check_volumes volumes mounts = do
  check_distinct "mount path" [] (map (λ m. m.mount_path) mounts)
  check_distinct "volume name" [] (map (λ v. v.name) volumes)
