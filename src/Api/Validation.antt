-- ===== src/Api/Validation.antt =====
-- What the validation of storage volumes and of services establishes.
use starrocks_kubernetes_ope.Base.{
  String, ℕ, some, is_some, true, false, ok, List, [], ◌∷◌, codes, same_codes, to_lower, ◌≡◌, ◌↔◌,
  ◌⊎◌, arith, eqb_iff, refl, Bool-cases, Option-cases, inl, inr,
}
use starrocks_kubernetes_ope.Api.Services.{
  StarRocksService, takes_traffic_policy, type_or_cluster_ip, validate_service,
}
use starrocks_kubernetes_ope.Api.Volumes.{
  StorageVolume, equals_ignore_case, validate_volume, special_storage_class_name,
}
use text.Mathlib.Text.{◌==◌}
use text.Mathlib.TextEquality.{eq_iff}

pub same_codes→eq : (xs ys : List ℕ) → same_codes xs ys ≡ true → xs ≡ ys
same_codes→eq [] [] h = refl
same_codes→eq (x ∷ xs) (y ∷ ys) h = ground (arith, eqb_iff x y, same_codes→eq xs ys)
same_codes→eq [] (y ∷ ys) h = cc
same_codes→eq (x ∷ xs) [] h = cc

-- A text that is one word ignoring case is no other.
csi-not-empty_dir :
    (class : String)
    → equals_ignore_case class "csi" ≡ true
    → (equals_ignore_case class "emptyDir" ≡ false) × (equals_ignore_case class "hostPath" ≡ false)
unfolding equals_ignore_case
csi-not-empty_dir class h =
    let e : to_lower (codes class) ≡ to_lower (codes "csi") = same_codes→eq _ _ h in
    (rw e (unfold to_lower in refl), rw e (unfold to_lower in refl))

-- A volume that passes the validation and has a csi block is rendered as that CSI volume: the
-- storage class that the pod builder and the claim builder act on is "csi".
pub validate_volume-csi :
    (v : StorageVolume)
    → validate_volume v ≡ ok tt
    → is_some v.csi ≡ true
    → special_storage_class_name v ≡ "csi"
unfolding validate_volume special_storage_class_name
validate_volume-csi v h c = elim (Option-cases v.storage_class_name) [
  | inl unset ↦ rw unset (ground arith)
  | inr (class, set) ↦ rw set (ground (arith, csi-not-empty_dir class))
]

default_type-takes_traffic_policy :
    (type : String) → takes_traffic_policy (type_or_cluster_ip type) ≡ takes_traffic_policy type
default_type-takes_traffic_policy type = elim (Bool-cases (type == "")) [
  | inl unset ↦ rw unset (rw ((eq_iff type "").0 unset))
  | inr given ↦ rw given
]

-- A service is valid exactly when it sets no external traffic policy, or is of one of the two types
-- that take one.
pub validate_service_iff :
    (svc : StarRocksService)
    → (validate_service (some svc) ≡ ok tt)
      ↔ ((svc.external_traffic_policy ≡ "") ⊎ (svc.type ≡ "NodePort") ⊎ (svc.type ≡ "LoadBalancer"))
unfolding validate_service
validate_service_iff svc = rw (default_type-takes_traffic_policy svc.type) (
    ground (
      arith,
      eq_iff svc.external_traffic_policy "",
      eq_iff svc.type "NodePort",
      eq_iff svc.type "LoadBalancer",
    ))
