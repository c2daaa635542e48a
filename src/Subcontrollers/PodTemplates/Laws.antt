-- ===== src/Subcontrollers/PodTemplates/Laws.antt =====
-- The volumes of the pods: pkg/subcontrollers/{fe/fe_pod.go,be/be_pod.go,cn/cn_pod.go}.
use starrocks_kubernetes_ope.Base.{
  String, some, List, [], ◌∷◌, ◌++◌, Bool, any, not, ok, ◌≡◌, refl, ap, ◌∙◌, subst, map, Bool-cases,
  inl, inr, ◌&&◌,
}
use starrocks_kubernetes_ope.Base.Results.Fallible.{◌>>◌, then-eq-ok}
use starrocks_kubernetes_ope.Kube.{VolumeSource, empty_dir}
use starrocks_kubernetes_ope.Kube.Client.{Client, Settings}
use starrocks_kubernetes_ope.Api.{
  Spec, fe_spec, be_spec, cn_spec, StarRocksFeSpec, StarRocksBeSpec, StarRocksCnSpec,
  StarRocksComponentSpec, MountInfo, ConfigMapInfo, StorageVolume,
}
use starrocks_kubernetes_ope.K8sutils.Volumes.{has_volume, has_mount_path, check_volumes}
use starrocks_kubernetes_ope.K8sutils.Volumes.Laws.{Distinct, check_volumes_iff}
use starrocks_kubernetes_ope.Templates.Mounts.{
  Mounts, no_mounts, add_volume, mount_storage_volumes, mount_config_map_info, mount_config_maps,
  mount_secrets, mount_config_loop, has_command,
}
use starrocks_kubernetes_ope.Templates.Mounts.Laws.{
  IsPaired, add_volume-IsPaired, mount_storage_loop-IsPaired,
}
use starrocks_kubernetes_ope.Templates.Pods.{storage_dir, log_dir}
use starrocks_kubernetes_ope.Templates.Workloads.Laws.{claim_in, claims_in, claims_in-append}
use starrocks_kubernetes_ope.Subcontrollers.PodTemplates.{
  mount_default, checked_mounts, fe_mounts, be_mounts, cn_mounts,
}
use mathlib.Core.List.{append-nil}
use text.Mathlib.Text.{◌==◌}

-- What holds of the volumes and mounts of a pod with these storage volumes: the n-th mount names
-- the n-th volume, no path and no volume name stands twice, and the claims are the storage volumes'.
pub record IsMounted (storage : List StorageVolume) (m : Mounts) : Type 0 where
  pub paired : IsPaired m
  pub paths : Distinct (map (λ mount. mount.mount_path) m.mounts)
  pub names : Distinct (map (λ volume. volume.name) m.volumes)
  pub claims : claims_in m.volumes ≡ claims_in (mount_storage_volumes storage).volumes

-- The invariant of the functions that add volumes.
record Adds (storage : List StorageVolume) (m : Mounts) : Type 0 where
  pub paired : IsPaired m
  pub claims : claims_in m.volumes ≡ claims_in (mount_storage_volumes storage).volumes

module _ {storage : List StorageVolume} where
  add_volume-Adds :
      (m : Mounts) (source : VolumeSource) (name path sub_path : String)
      → claim_in source ≡ []
      → Adds storage m
      → Adds storage (add_volume m source name path sub_path)
  unfolding add_volume
  add_volume-Adds m source name path sub_path free h = record {
    paired = add_volume-IsPaired m source name path sub_path h.paired;
    claims =
        claims_in-append m.volumes (record { name = name; source = source } ∷ [])
        ∙ ap (λ l. claims_in m.volumes ++ (l ++ [])) free
        ∙ append-nil (claims_in m.volumes)
        ∙ h.claims;
  }

  mount_default-Adds :
      (names : List String) (name dir : String) (m : Mounts)
      → Adds storage m
      → Adds storage (mount_default names name dir m)
  unfolding mount_default
  mount_default-Adds names name dir m h =
      elim (Bool-cases
        (not (any (has_volume m.volumes) names) && not (has_mount_path m.mounts dir))) [
          | inl missing ↦ rw missing (add_volume-Adds m empty_dir name dir "" refl h)
          | inr present ↦ rw present h
        ]

  mount_config_map_info-Adds :
      (m : Mounts) (info : ConfigMapInfo) (path : String)
      → Adds storage m
      → Adds storage (mount_config_map_info m info path)
  unfolding mount_config_map_info
  mount_config_map_info-Adds m info path h =
      elim (Bool-cases (not (info.config_map_name == "") && not (info.resolve_key == ""))) [
        | inl given ↦ rw given (add_volume-Adds m _ info.config_map_name path "" refl h)
        | inr missing ↦ rw missing h
      ]

  module _ (c : Client) (settings : Settings) where
    mount_config_loop-Adds :
        (prerequisite : Bool) (rs : List MountInfo) (m : Mounts)
        → Adds storage m
        → Adds storage (mount_config_loop c settings prerequisite m rs)
    unfolding mount_config_loop
    mount_config_loop-Adds prerequisite [] m h = h
    mount_config_loop-Adds prerequisite (r ∷ rs) m h =
        mount_config_loop-Adds prerequisite rs _ (add_volume-Adds m _ _ _ _ refl h)

    mount_secrets-Adds :
        (rs : List MountInfo) (m : Mounts)
        → Adds storage m
        → Adds storage (mount_secrets c settings m rs)
    unfolding mount_secrets
    mount_secrets-Adds [] m h = h
    mount_secrets-Adds (r ∷ rs) m h = mount_secrets-Adds rs _ (add_volume-Adds m _ _ _ _ refl h)

    checked :
        (all m : Mounts)
        → (check_volumes all.volumes all.mounts >> ok all) ≡ ok m
        → Adds storage all
        → IsMounted storage m
    checked all m h a =
        let (passed, same) = then-eq-ok (check_volumes all.volumes all.mounts) all h in
        let (paths, names) = (check_volumes_iff all.volumes all.mounts).0 passed in
        subst (IsMounted storage) same
          (record { paired = a.paired; paths = paths; names = names; claims = a.claims })

    checked_mounts-IsMounted :
        (spec : Spec) (component : StarRocksComponentSpec) (path : String) (start m : Mounts)
        → checked_mounts c settings spec component path start ≡ ok m
        → Adds storage start
        → IsMounted storage m
    unfolding checked_mounts mount_config_maps
    checked_mounts-IsMounted spec component path start m h a = checked _ m h (
        mount_secrets-Adds component.secrets _ (
          mount_config_loop-Adds (has_command c settings (some spec)) component.config_maps _
            (mount_config_map_info-Adds start component.config_map_info path a)))

mount_storage_volumes-Adds :
    (storage : List StorageVolume) → Adds storage (mount_storage_volumes storage)
unfolding mount_storage_volumes
mount_storage_volumes-Adds storage = record {
  paired = mount_storage_loop-IsPaired no_mounts storage refl;
  claims = refl;
}

module _ (c : Client) (settings : Settings) where
  pub fe_mounts-IsMounted :
      (spec : StarRocksFeSpec) (m : Mounts)
      → fe_mounts c settings spec ≡ ok m
      → IsMounted spec.storage_volumes m
  unfolding fe_mounts
  fe_mounts-IsMounted spec m h =
      checked_mounts-IsMounted c settings (fe_spec spec) spec.component _ _ m h (
        mount_default-Adds ("fe-log" ∷ []) "fe-log" (log_dir (fe_spec spec)) _ (
          mount_default-Adds ("fe-meta" ∷ []) "fe-meta" (storage_dir (fe_spec spec)) _
            (mount_storage_volumes-Adds spec.storage_volumes)))

  pub be_mounts-IsMounted :
      (spec : StarRocksBeSpec) (m : Mounts)
      → be_mounts c settings spec ≡ ok m
      → IsMounted spec.storage_volumes m
  unfolding be_mounts
  be_mounts-IsMounted spec m h =
      checked_mounts-IsMounted c settings (be_spec spec) spec.component _ _ m h (
        mount_default-Adds ("be-log" ∷ []) "be-log" (log_dir (be_spec spec)) _ (
          mount_default-Adds ("be-storage" ∷ "be-data" ∷ []) "be-data" (storage_dir (be_spec spec))
            _ (mount_storage_volumes-Adds spec.storage_volumes)))

  pub cn_mounts-IsMounted :
      (spec : StarRocksCnSpec) (m : Mounts)
      → cn_mounts c settings spec ≡ ok m
      → IsMounted spec.storage_volumes m
  unfolding cn_mounts
  cn_mounts-IsMounted spec m h =
      checked_mounts-IsMounted c settings (cn_spec spec) spec.component _ _ m h (
        mount_default-Adds ("cn-log" ∷ []) "cn-log" (log_dir (cn_spec spec)) _
          (mount_storage_volumes-Adds spec.storage_volumes))
