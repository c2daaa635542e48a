-- ===== src/Subcontrollers/Clear.antt =====
-- The deletion of a component's objects: ClearCluster of the FE, BE and CN sub-controllers,
-- pkg/subcontrollers/{fe/fe_controller.go,be/be_controller.go,cn/cn_controller.go}.
pub mod Laws
use starrocks_kubernetes_ope.Base.{
  String, Option, none, some, Result, ok, err, panic, is_not_found, if◌then◌else◌, ◌<>◌,
}
use starrocks_kubernetes_ope.Base.Results.Stateful.{M, ◌>>=◌, ◌>>◌, pure, fail, read, try}
use starrocks_kubernetes_ope.Kube.Client.{Client, Settings}
use starrocks_kubernetes_ope.K8sutils.Delete.{delete_statefulset, delete_service, delete_autoscaler}
use starrocks_kubernetes_ope.Api.{
  SpecKind, fe, be, cn, StarRocksCluster, StarRocksCnStatus, AutoScalerVersion, version_unset,
}
use starrocks_kubernetes_ope.Templates.Names.{load_name, search_service_name, external_service_name}

-- `err != nil && !apierrors.IsNotFound(err)`
abbrev pub unless_not_found : {S : Type 0} → Result (Unit {0}) → M S (Unit {0})
unless_not_found (ok done) = pure tt
unless_not_found (err e) = if is_not_found e then pure tt else fail e
unless_not_found (panic p) = read (λ _. panic p)

abbrev pub ignoring_not_found : {S : Type 0} → M S (Unit {0}) → M S (Unit {0})
ignoring_not_found m = try m >>= unless_not_found

module _ (c : Client) where
  -- The stateful set and the two services.
  delete_objects : SpecKind → (namespace cluster_name : String) → M c.World (Unit {0})
  unfolding delete_statefulset delete_service load_name search_service_name external_service_name
  delete_objects kind namespace cluster_name = do
    ignoring_not_found (delete_statefulset c namespace (load_name cluster_name kind))
    ignoring_not_found (delete_service c namespace (search_service_name cluster_name kind))
    ignoring_not_found (delete_service c namespace (external_service_name cluster_name kind))

  -- ClearCluster of the FE
  unfoldable pub fe_clear_cluster : StarRocksCluster → M c.World (Unit {0})
  unfolding delete_objects
  fe_clear_cluster src = elim src.status.fe_status [
    | none ↦ pure tt
    | some _ ↦ elim src.meta.deletion_timestamp [
      | none ↦ pure tt
      | some _ ↦ delete_objects fe src.meta.namespace src.meta.name
    ]
  ]

  -- ClearCluster of the BE
  unfoldable pub be_clear_cluster : StarRocksCluster → M c.World (Unit {0})
  unfolding delete_objects
  be_clear_cluster src = elim src.spec.be_spec [
    | some _ ↦ pure tt
    | none ↦ delete_objects be src.meta.namespace src.meta.name
  ]

  -- generateAutoScalerName
  unfoldable pub auto_scaler_name : (prefix : String) → String
  unfolding load_name
  auto_scaler_name prefix = load_name prefix cn <> "-autoscaler"

  -- deleteAutoScaler
  unfoldable pub delete_auto_scaler :
      Settings → (namespace prefix : String) → AutoScalerVersion → M c.World (Unit {0})
  unfolding delete_autoscaler auto_scaler_name
  delete_auto_scaler settings namespace prefix version =
      ignoring_not_found (delete_autoscaler c settings namespace (auto_scaler_name prefix) version)

  unfoldable pub scaler_version : Option StarRocksCnStatus → AutoScalerVersion
  scaler_version none = version_unset
  scaler_version (some status) = status.horizontal_scaler.version

  -- ClearCluster of the CN
  unfoldable pub cn_clear_cluster : Settings → StarRocksCluster → M c.World (Unit {0})
  unfolding delete_objects delete_auto_scaler scaler_version
  cn_clear_cluster settings src = elim src.spec.cn_spec [
    | some _ ↦ pure tt
    | none ↦
        delete_objects cn src.meta.namespace src.meta.name
        >> ignoring_not_found (
            delete_auto_scaler settings src.meta.namespace src.meta.name
              (scaler_version src.status.cn_status))
  ]
