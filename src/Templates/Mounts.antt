-- ===== src/Templates/Mounts.antt =====
-- The volumes of a pod and their mounts: pkg/k8sutils/templates/pod/mount.go.
pub mod Laws
use starrocks_kubernetes_ope.Base.{
  String, ℕ, zero, suc, ℤ, pos, Option, none, some, is_some, List, [], ◌∷◌, ◌++◌, Bool, true, false,
  has_prefix, if◌then◌else◌, ◌<>◌, ◌||◌, ◌&&◌, not,
}
use starrocks_kubernetes_ope.Kube.{
  Volume, VolumeMount, VolumeSource, persistent_volume_claim, empty_dir, host_path, csi, config_map,
  secret,
}
use starrocks_kubernetes_ope.Kube.Client.{Client, Settings}
use starrocks_kubernetes_ope.Api.{
  StorageVolume, special_storage_class_name, MountInfo, ConfigMapInfo, Spec, get_command, get_args,
}
use text.Mathlib.Text.{◌==◌}

-- The two slices that the functions of the file take and return.
pub record Mounts : Type 0 where
  pub volumes : List Volume
  pub mounts : List VolumeMount

abbrev pub no_mounts : Mounts
no_mounts = record { volumes = []; mounts = [] }

abbrev pub mount_at : (name mount_path sub_path : String) → VolumeMount
mount_at name mount_path sub_path = record {
  name = name;
  mount_path = mount_path;
  sub_path = sub_path;
  read_only = false;
}

-- The two appends of every function.
unfoldable pub add_volume : Mounts → VolumeSource → (name mount_path sub_path : String) → Mounts
add_volume m source name mount_path sub_path = record {
  volumes = m.volumes ++ record { name = name; source = source } ∷ [];
  mounts = m.mounts ++ mount_at name mount_path sub_path ∷ [];
}

-- MountPersistentVolumeClaim, MountEmptyDirVolume, MountHostPathVolume and MountCSIVolume, chosen by
-- the storage class
unfoldable pub source_of : StorageVolume → VolumeSource
unfolding special_storage_class_name
source_of v =
    let class = special_storage_class_name v in
    if class == "emptyDir"
    then empty_dir
    else if class == "hostPath"
    then host_path v.host_path
    else if class == "csi"
    then csi v.csi
    else persistent_volume_claim v.name

-- volumeMounts[len(volumeMounts)-1].ReadOnly = true
set_last_read_only : List VolumeMount → List VolumeMount
set_last_read_only [] = []
set_last_read_only (m ∷ []) = record m { read_only = true } ∷ []
set_last_read_only (m ∷ next ∷ ms) = m ∷ set_last_read_only (next ∷ ms)

-- The body of the loop of MountStorageVolumes.
unfoldable pub mount_storage_volume : Mounts → StorageVolume → Mounts
unfolding add_volume source_of set_last_read_only has_prefix
mount_storage_volume m v =
    let added = add_volume m (source_of v) v.name v.mount_path v.sub_path in
    if has_prefix v.storage_size "0"
    then m
    else if v.read_only
    then record added { mounts = set_last_read_only added.mounts }
    else added

unfoldable pub mount_storage_loop : Mounts → List StorageVolume → Mounts
unfolding mount_storage_volume
mount_storage_loop m [] = m
mount_storage_loop m (v ∷ vs) = mount_storage_loop (mount_storage_volume m v) vs

-- MountStorageVolumes, on the storage volumes of the specification
unfoldable pub mount_storage_volumes : List StorageVolume → Mounts
unfolding mount_storage_loop
mount_storage_volumes vs = mount_storage_loop no_mounts vs

take_text : ℕ → String → String
take_text zero s = ""
take_text (suc n) String.[] = ""
take_text (suc n) (String.◌∷◌ c s) = String.◌∷◌ c (take_text n s)

module _ (c : Client) (settings : Settings) where
  -- getVolumeName
  unfoldable pub volume_name : MountInfo → String
  unfolding take_text
  volume_name info =
      if settings.volume_name_with_hash
      then info.name <> "-" <> take_text 4 (c.hash_object MountInfo info)
      else info.name

  -- 0755 where the container has a command or arguments and the reference is to one file
  mode_of : (prerequisite : Bool) → MountInfo → Option ℤ
  mode_of prerequisite reference =
      if prerequisite && not (reference.sub_path == "") then some (pos 493) else none

  unfoldable pub mount_config_loop : (prerequisite : Bool) → Mounts → List MountInfo → Mounts
  unfolding add_volume volume_name mode_of
  mount_config_loop prerequisite m [] = m
  mount_config_loop prerequisite m (r ∷ rs) =
      mount_config_loop prerequisite
        (add_volume m (config_map r.name (mode_of prerequisite r)) (volume_name r) r.mount_path
          r.sub_path)
        rs

  unfoldable pub has_command : Option Spec → Bool
  unfolding get_command get_args
  has_command none = false
  has_command (some spec) = is_some (get_command spec) || is_some (get_args spec)

  -- MountConfigMaps
  unfoldable pub mount_config_maps : Option Spec → Mounts → List MountInfo → Mounts
  unfolding mount_config_loop has_command
  mount_config_maps spec m references = mount_config_loop (has_command spec) m references

  -- MountSecrets
  unfoldable pub mount_secrets : Mounts → List MountInfo → Mounts
  unfolding add_volume volume_name
  mount_secrets m [] = m
  mount_secrets m (r ∷ rs) =
      mount_secrets (add_volume m (secret r.name) (volume_name r) r.mount_path r.sub_path) rs

-- MountConfigMapInfo
unfoldable pub mount_config_map_info : Mounts → ConfigMapInfo → (mount_path : String) → Mounts
unfolding add_volume
mount_config_map_info m info mount_path =
    if not (info.config_map_name == "") && not (info.resolve_key == "")
    then add_volume m (config_map info.config_map_name none) info.config_map_name mount_path ""
    else m
