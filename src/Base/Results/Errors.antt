-- ===== src/Base/Results/Errors.antt =====
-- The errors of the program. `sentinel` holds the package-level error values that callers compare
-- with; `not_found`, `conflict` and `no_match` are the API server's answers that they test for.
use Prim.Native.String.{String}
use mathlib.Core.Bool.{Bool, true, false}
use mathlib.Core.Logic.{ite, ◌⊎◌, inl, inr}
use mathlib.Core.Path.{◌≡◌, refl}
use starrocks_kubernetes_ope.Base.Text.{◌<>◌}

pub data Sentinel : Type 0 where
  err_host_path_required err_csi_required err_csi_conflict err_csi_storage_class : Sentinel
  err_warehouse_name_is_not_allowed err_spec_is_missing err_starrocks_cluster_is_missing : Sentinel
  err_fe_is_not_ready err_should_run_in_shared_data_mode : Sentinel
  err_failed_to_get_fe_feature_list err_replicas_not_equal err_hash_value_not_equal : Sentinel

Sentinel-discrete : Discrete Sentinel
Sentinel-discrete = hlevel

pub data Error : Type 0 where
  not_found : String → Error
  conflict : String → Error
  no_match : String → Error
  failure : String → Error
  sentinel : Sentinel → Error
  wrapped : String → Error → Error

pub data Result (A : Type 0) : Type 0 where
  ok : A → Result A
  err : Error → Result A
  panic : String → Result A

-- apierrors.IsNotFound, which looks through wrapped errors
unfoldable pub is_not_found : Error → Bool
is_not_found (not_found m) = true
is_not_found (wrapped p e) = is_not_found e
is_not_found _ = false

-- errors.Is
unfoldable pub is_error : Error → Sentinel → Bool
unfolding Sentinel-discrete
is_error (sentinel s) target = ite (Sentinel-discrete s target) true false
is_error (wrapped p e) target = is_error e target
is_error _ target = false

unfoldable pub sentinel_text : Sentinel → String
sentinel_text err_host_path_required =
    "if storageClassName is hostPath, hostPath and hostPath.path is required"
sentinel_text err_csi_required =
    "csi is required if storageClassName is csi, and csi.driver must not be empty"
sentinel_text err_csi_conflict = "csi and hostPath can not be set at the same time"
sentinel_text err_csi_storage_class = "if csi is set, storageClassName must be empty or \"csi\""
sentinel_text err_warehouse_name_is_not_allowed = "warehouse name should not equal to cluster name"
sentinel_text err_spec_is_missing = "spec.template or spec.starRocksCluster is missing"
sentinel_text err_starrocks_cluster_is_missing = "custom resource StarRocksCluster is missing"
sentinel_text err_fe_is_not_ready = "component fe is not ready"
sentinel_text err_should_run_in_shared_data_mode =
    "StarRocks Cluster should run in shared_data mode"
sentinel_text err_failed_to_get_fe_feature_list =
    "failed to invoke FE /api/v2/feature or FE does not support multi-warehouse feature"
sentinel_text err_replicas_not_equal = "replicas not equal"
sentinel_text err_hash_value_not_equal = "hash value not equal"

-- err.Error()
unfoldable pub error_text : Error → String
unfolding sentinel_text
error_text (not_found m) = m
error_text (conflict m) = m
error_text (no_match m) = m
error_text (failure m) = m
error_text (sentinel s) = sentinel_text s
error_text (wrapped p e) = p <> ": " <> error_text e

pub Result-cases :
    {A : Type 0} (r : Result A)
    → ((a : A) × (r ≡ ok a)) ⊎ ((e : Error) × (r ≡ err e)) ⊎ ((p : String) × (r ≡ panic p))
Result-cases (ok a) = inl (a, refl)
Result-cases (err e) = inr (inl (e, refl))
Result-cases (panic p) = inr (inr (p, refl))
