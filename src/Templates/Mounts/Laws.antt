-- ===== src/Templates/Mounts/Laws.antt =====
-- Every mount of a pod names one of its volumes: pkg/k8sutils/templates/pod/mount.go.
use starrocks_kubernetes_ope.Base.{
  String, List, [], ◌∷◌, ◌++◌, Bool, true, Option, has_prefix, if◌then◌else◌, ◌≡◌, refl, ap, ◌∙◌,
  sym, Bool-cases, inl, inr, ◌&&◌, not,
}
use starrocks_kubernetes_ope.Kube.{Volume, VolumeMount, VolumeSource}
use starrocks_kubernetes_ope.Kube.Client.{Client, Settings}
use starrocks_kubernetes_ope.Api.{StorageVolume, MountInfo, ConfigMapInfo, Spec}
use starrocks_kubernetes_ope.Templates.Mounts.{
  Mounts, no_mounts, mount_at, add_volume, source_of, set_last_read_only, mount_storage_volume,
  mount_storage_loop, mount_storage_volumes, mount_config_loop, mount_config_maps, mount_secrets,
  mount_config_map_info, has_command,
}
use text.Mathlib.Text.{◌==◌}
use mathlib.Core.List.{append_assoc, append-nil}

abbrev pub names_of_mounts : List VolumeMount → List String
names_of_mounts [] = []
names_of_mounts (m ∷ ms) = m.name ∷ names_of_mounts ms

abbrev pub names_of_volumes : List Volume → List String
names_of_volumes [] = []
names_of_volumes (v ∷ vs) = v.name ∷ names_of_volumes vs

-- The n-th mount names the n-th volume.
abbrev pub IsPaired : Mounts → Type 0
IsPaired m = names_of_mounts m.mounts ≡ names_of_volumes m.volumes

names_of_mounts-append :
    (ms : List VolumeMount) (m : VolumeMount)
    → names_of_mounts (ms ++ m ∷ []) ≡ names_of_mounts ms ++ m.name ∷ []
names_of_mounts-append [] m = refl
names_of_mounts-append (x ∷ ms) m = ap (λ ns. x.name ∷ ns) (names_of_mounts-append ms m)

names_of_volumes-append :
    (vs : List Volume) (v : Volume)
    → names_of_volumes (vs ++ v ∷ []) ≡ names_of_volumes vs ++ v.name ∷ []
names_of_volumes-append [] v = refl
names_of_volumes-append (x ∷ vs) v = ap (λ ns. x.name ∷ ns) (names_of_volumes-append vs v)

pub add_volume-IsPaired :
    (m : Mounts) (source : VolumeSource) (name mount_path sub_path : String)
    → IsPaired m
    → IsPaired (add_volume m source name mount_path sub_path)
unfolding add_volume
add_volume-IsPaired m source name mount_path sub_path paired =
    names_of_mounts-append m.mounts (mount_at name mount_path sub_path)
    ∙ ap (λ ns. ns ++ name ∷ []) paired
    ∙ sym (names_of_volumes-append m.volumes (record { name = name; source = source }))

set_last_read_only-names :
    (ms : List VolumeMount) → names_of_mounts (set_last_read_only ms) ≡ names_of_mounts ms
unfolding set_last_read_only
set_last_read_only-names [] = refl
set_last_read_only-names (m ∷ []) = refl
set_last_read_only-names (m ∷ next ∷ ms) =
    ap (λ ns. m.name ∷ ns) (set_last_read_only-names (next ∷ ms))

mount_storage_volume-IsPaired :
    (m : Mounts) (v : StorageVolume) → IsPaired m → IsPaired (mount_storage_volume m v)
unfolding mount_storage_volume
mount_storage_volume-IsPaired m v paired =
    let added = add_volume m (source_of v) v.name v.mount_path v.sub_path in
    let added_paired = add_volume-IsPaired m (source_of v) v.name v.mount_path v.sub_path paired in
    elim (Bool-cases (has_prefix v.storage_size "0")) [
      | inl skipped ↦ rw skipped paired
      | inr kept ↦ elim (Bool-cases v.read_only) [
        | inl locked ↦ rw (kept, locked) (set_last_read_only-names added.mounts ∙ added_paired)
        | inr writable ↦ rw (kept, writable) added_paired
      ]
    ]

pub mount_storage_loop-IsPaired :
    (m : Mounts) (vs : List StorageVolume) → IsPaired m → IsPaired (mount_storage_loop m vs)
unfolding mount_storage_loop
mount_storage_loop-IsPaired m [] paired = paired
mount_storage_loop-IsPaired m (v ∷ vs) paired =
    mount_storage_loop-IsPaired (mount_storage_volume m v) vs
      (mount_storage_volume-IsPaired m v paired)

pub mount_config_map_info-IsPaired :
    (m : Mounts) (info : ConfigMapInfo) (mount_path : String)
    → IsPaired m
    → IsPaired (mount_config_map_info m info mount_path)
unfolding mount_config_map_info
mount_config_map_info-IsPaired m info mount_path paired =
    elim (Bool-cases (not (info.config_map_name == "") && not (info.resolve_key == ""))) [
      | inl given ↦ rw given (add_volume-IsPaired m _ info.config_map_name mount_path "" paired)
      | inr missing ↦ rw missing paired
    ]

module _ (c : Client) (settings : Settings) where
  pub mount_config_loop-IsPaired :
      (prerequisite : Bool) (rs : List MountInfo) (m : Mounts)
      → IsPaired m
      → IsPaired (mount_config_loop c settings prerequisite m rs)
  unfolding mount_config_loop
  mount_config_loop-IsPaired prerequisite [] m paired = paired
  mount_config_loop-IsPaired prerequisite (r ∷ rs) m paired =
      mount_config_loop-IsPaired prerequisite rs _ (add_volume-IsPaired m _ _ _ _ paired)

  pub mount_secrets-IsPaired :
      (rs : List MountInfo) (m : Mounts) → IsPaired m → IsPaired (mount_secrets c settings m rs)
  unfolding mount_secrets
  mount_secrets-IsPaired [] m paired = paired
  mount_secrets-IsPaired (r ∷ rs) m paired =
      mount_secrets-IsPaired rs _ (add_volume-IsPaired m _ _ _ _ paired)

  -- However many storage volumes, config maps and secrets a specification names, with the renaming
  -- by a hash or without: the n-th mount of the pod names its n-th volume, so that no mount lacks a
  -- volume and no volume a mount.
  pub pod_mounts-IsPaired :
      (spec : Option Spec) (vs : List StorageVolume) (info : ConfigMapInfo) (mount_path : String)
      (config_maps secrets : List MountInfo)
      → IsPaired (
          mount_secrets c settings
            (mount_config_maps c settings spec
              (mount_config_map_info (mount_storage_volumes vs) info mount_path)
              config_maps)
            secrets)
  unfolding mount_storage_volumes mount_config_maps
  pod_mounts-IsPaired spec vs info mount_path config_maps secrets =
      mount_secrets-IsPaired secrets _ (
        mount_config_loop-IsPaired (has_command c settings spec) config_maps _ (
          mount_config_map_info-IsPaired _ info mount_path
            (mount_storage_loop-IsPaired no_mounts vs refl)))

-- What the loop over the storage volumes comes to: the volumes with a size that does not begin with
-- 0, each with its own flag.
abbrev pub mount_of : StorageVolume → VolumeMount
mount_of v = record (mount_at v.name v.mount_path v.sub_path) { read_only = v.read_only }

pub mounts_of : List StorageVolume → List VolumeMount
mounts_of [] = []
mounts_of (v ∷ vs) =
    let rest = mounts_of vs in if has_prefix v.storage_size "0" then rest else mount_of v ∷ rest

set_last_read_only-append :
    (ms : List VolumeMount) (m : VolumeMount)
    → set_last_read_only (ms ++ m ∷ []) ≡ ms ++ record m { read_only = true } ∷ []
unfolding set_last_read_only
set_last_read_only-append [] m = refl
set_last_read_only-append (x ∷ []) m = refl
set_last_read_only-append (x ∷ y ∷ ms) m = ap (λ l. x ∷ l) (set_last_read_only-append (y ∷ ms) m)

mount_storage_volume-mounts :
    (m : Mounts) (v : StorageVolume)
    → (mount_storage_volume m v).mounts
      ≡ m.mounts ++ (if has_prefix v.storage_size "0" then [] else mount_of v ∷ [])
unfolding mount_storage_volume add_volume
mount_storage_volume-mounts m v = elim (Bool-cases (has_prefix v.storage_size "0")) [
  | inl skipped ↦ rw skipped (sym (append-nil m.mounts))
  | inr kept ↦ elim (Bool-cases v.read_only) [
    | inl locked ↦
        rw (kept, locked)
          (set_last_read_only-append m.mounts (mount_at v.name v.mount_path v.sub_path))
    | inr writable ↦ rw (kept, writable) refl
  ]
]

mount_storage_loop-mounts :
    (vs : List StorageVolume) (m : Mounts)
    → (mount_storage_loop m vs).mounts ≡ m.mounts ++ mounts_of vs
unfolding mount_storage_loop mounts_of
mount_storage_loop-mounts [] m = sym (append-nil m.mounts)
mount_storage_loop-mounts (v ∷ vs) m =
    mount_storage_loop-mounts vs (mount_storage_volume m v)
    ∙ ap (λ ms. ms ++ mounts_of vs) (mount_storage_volume-mounts m v)
    ∙ append_assoc m.mounts (if has_prefix v.storage_size "0" then [] else mount_of v ∷ [])
        (mounts_of vs)
    ∙ ap (λ ms. m.mounts ++ ms) (mounts_of-cons v vs)
  where
    mounts_of-cons :
        (v : StorageVolume) (vs : List StorageVolume)
        → (if has_prefix v.storage_size "0" then [] else mount_of v ∷ []) ++ mounts_of vs
          ≡ mounts_of (v ∷ vs)
    mounts_of-cons v vs = elim (Bool-cases (has_prefix v.storage_size "0")) [
      | inl skipped ↦ rw skipped refl
      | inr kept ↦ rw kept refl
    ]

-- The mounts of MountStorageVolumes are those of the volumes whose size does not begin with 0,
-- volumes of the classes emptyDir and hostPath included, in their order, and each is read-only
-- exactly where its own volume is: the flag that the loop sets on the last entry never falls on
-- another volume's mount.
pub mount_storage_volumes-mounts :
    (vs : List StorageVolume) → (mount_storage_volumes vs).mounts ≡ mounts_of vs
unfolding mount_storage_volumes
mount_storage_volumes-mounts vs = mount_storage_loop-mounts vs no_mounts
