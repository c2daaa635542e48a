-- ===== src/Tests/Api.antt =====
-- Specifications and the version of the server at concrete inputs.
use starrocks_kubernetes_ope.K8sutils.Version.{with_server_version}
use starrocks_kubernetes_ope.K8sutils.Version.Laws.{complete_version_of_server_iff}
use starrocks_kubernetes_ope.Tests.Fixtures.{settings}
use starrocks_kubernetes_ope.Base.{none, some, ◌≡◌, ◌↔◌, refl, false, parse_int, ◌<>◌, ◌≤◌}
use starrocks_kubernetes_ope.Api.{
  StorageVolume, validate_volume, validate_csi, special_storage_class_name, version_unset,
  auto_scaler_v2, complete_version,
}
use starrocks_kubernetes_ope.Api.Validation.{validate_volume-csi}

abbrev csi_volume : StorageVolume
csi_volume = record {
  name = "data";
  storage_class_name = none;
  storage_size = "";
  host_path = none;
  csi = some (record { driver = "ebs"; rest = "" });
  mount_path = "/data";
  sub_path = "";
  read_only = false;
}

validate_volume-csi_example : special_storage_class_name csi_volume ≡ "csi"
unfolding validate_volume validate_csi
validate_volume-csi_example = validate_volume-csi csi_volume refl refl

server_version_example :
    let known = with_server_version "1" ("28" <> "+") settings in
    (complete_version version_unset known.kube_major_version known.kube_minor_version
      ≡ auto_scaler_v2)
    ↔ (26 ≤ 28)
unfolding parse_int
server_version_example =
    complete_version_of_server_iff "28" "+" 28 settings (refl, (refl, tt)) (refl, tt) refl
