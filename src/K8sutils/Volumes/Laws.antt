-- ===== src/K8sutils/Volumes/Laws.antt =====
-- What CheckVolumes establishes.
use starrocks_kubernetes_ope.Base.{
  String, List, [], ◌∷◌, false, ok, ◌≡◌, ◌↔◌, arith, All, map, refl,
}
use starrocks_kubernetes_ope.Kube.{Volume, VolumeMount}
use starrocks_kubernetes_ope.K8sutils.Volumes.{member, check_distinct, check_volumes}
use text.Mathlib.TextEquality.{eq_iff}

-- No text stands twice.
abbrev IsNew : String → List String → Type 0
IsNew x xs = member x xs ≡ false

abbrev pub Distinct : List String → Type 0
Distinct [] = Unit
Distinct (x ∷ xs) = IsNew x xs × Distinct xs

abbrev AllNew : List String → List String → Type 0
AllNew seen xs = All (λ x. IsNew x seen) xs

AllNew-cons :
    (x : String) (seen xs : List String) → AllNew (x ∷ seen) xs ↔ (IsNew x xs × AllNew seen xs)
AllNew-cons x seen [] = ground arith
AllNew-cons x seen (y ∷ ys) = ground (arith, AllNew-cons x seen ys, eq_iff x y, eq_iff y x)

check_distinct_iff :
    (what : String) (seen xs : List String)
    → (check_distinct what seen xs ≡ ok tt) ↔ (Distinct xs × AllNew seen xs)
unfolding check_distinct
check_distinct_iff what seen [] = ground arith
check_distinct_iff what seen (x ∷ xs) =
    ground (arith, check_distinct_iff what (x ∷ seen) xs, AllNew-cons x seen xs)

AllNew-nil : (xs : List String) → AllNew [] xs
AllNew-nil [] = tt
AllNew-nil (x ∷ xs) = (refl, AllNew-nil xs)

-- CheckVolumes succeeds exactly when no mount path and no volume name stands twice.
pub check_volumes_iff :
    (volumes : List Volume) (mounts : List VolumeMount)
    → (check_volumes volumes mounts ≡ ok tt)
      ↔ (Distinct (map (λ m. m.mount_path) mounts) × Distinct (map (λ v. v.name) volumes))
unfolding check_volumes
check_volumes_iff volumes mounts =
    let paths = map (λ (m : VolumeMount). m.mount_path) mounts in
    let names = map (λ (v : Volume). v.name) volumes in
    ground (
      arith,
      check_distinct_iff "mount path" [] paths,
      check_distinct_iff "volume name" [] names,
      AllNew-nil paths,
      AllNew-nil names,
    )
