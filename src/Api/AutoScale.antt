-- ===== src/Api/AutoScale.antt =====
-- The auto scaling policy and the choice of an HPA version: pkg/apis/starrocks/v1/auto_scale.go.
use starrocks_kubernetes_ope.Base.{
  String, ℤ, pos, Option, none, some, List, ltz, parse_int, if◌then◌else◌, not,
}
use starrocks_kubernetes_ope.Kube.{Raw, HpaVersion, hpa_v1, hpa_v2beta2, hpa_v2}
use text.Mathlib.Text.{◌==◌}

pub data AutoScalerVersion : Type 0 where
  version_unset auto_scaler_v1 auto_scaler_v2beta2 auto_scaler_v2 : AutoScalerVersion
  version_other : String → AutoScalerVersion

pub record HpaPolicy : Type 0 where
  pub metrics : List Raw
  pub behavior : Option Raw

pub record AutoScalingPolicy : Type 0 where
  pub hpa_policy : Option HpaPolicy
  pub version : AutoScalerVersion
  pub min_replicas : Option ℤ
  pub max_replicas : ℤ

version_of_minor : Option ℤ → AutoScalerVersion
version_of_minor none = auto_scaler_v2beta2
version_of_minor (some minor) =
    if not (ltz minor (pos 26)) then auto_scaler_v2 else auto_scaler_v2beta2

-- (version AutoScalerVersion) Complete; strconv.Atoi reads an int of 64 bits
unfoldable pub complete_version : AutoScalerVersion → (major minor : String) → AutoScalerVersion
unfolding version_of_minor parse_int
complete_version version_unset major minor =
    if major == "1" then version_of_minor (parse_int 64 minor) else auto_scaler_v2
complete_version version major minor = version

-- The type of the object of CreateEmptyHPA; `none` is the nil object of any other version.
unfoldable pub empty_hpa : AutoScalerVersion → (major minor : String) → Option HpaVersion
unfolding complete_version
empty_hpa version major minor = elim (complete_version version major minor) [
  | auto_scaler_v1 ↦ some hpa_v1
  | auto_scaler_v2 ↦ some hpa_v2
  | auto_scaler_v2beta2 ↦ some hpa_v2beta2
  | _ ↦ none
]
