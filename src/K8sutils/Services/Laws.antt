-- ===== src/K8sutils/Services/Laws.antt =====
-- What a user's specification of a service cannot change: pkg/common/resource_utils/service.go.
use starrocks_kubernetes_ope.Base.{
  String, ℤ, Option, none, some, List, [], ◌∷◌, Dict, eqz, ◌≡◌, refl, Bool-cases, inl, inr,
}
use starrocks_kubernetes_ope.Kube.{ServicePort, annotation, annotation-annotate}
use starrocks_kubernetes_ope.Kube.Client.{Client}
use starrocks_kubernetes_ope.Api.{StarRocksService, StarRocksServicePort, SpecKind}
use starrocks_kubernetes_ope.K8sutils.Equality.{
  HashService, service_hash_object, component_resource_hash,
}
use starrocks_kubernetes_ope.K8sutils.Services.{
  override, merge_by_name, merge_by_port, merge_ports_of, merge_port, service_port, service_ports,
  plain_ports, unhashed_service, build_external_service,
}
use starrocks_kubernetes_ope.Templates.Names.{StarRocksObject}
use text.Mathlib.Text.{◌==◌}

-- A port leads to the same port of the container under the same name.
abbrev IsSameTarget : StarRocksServicePort → StarRocksServicePort → Type 0
IsSameTarget a b = (a.name ≡ b.name) × (a.container_port ≡ b.container_port)

merge_by_name-IsSameTarget :
    (users : List StarRocksServicePort) (port : StarRocksServicePort)
    → IsSameTarget (merge_by_name users port) port
unfolding merge_by_name override
merge_by_name-IsSameTarget [] port = (refl, refl)
merge_by_name-IsSameTarget (user ∷ users) port = elim (Bool-cases (user.name == port.name)) [
  | inl same ↦ rw same (refl, refl)
  | inr other ↦ rw other (merge_by_name-IsSameTarget users port)
]

merge_by_port-IsSameTarget :
    (users : List StarRocksServicePort) (otherwise port : StarRocksServicePort)
    → IsSameTarget otherwise port
    → IsSameTarget (merge_by_port users otherwise port) port
unfolding merge_by_port override
merge_by_port-IsSameTarget [] otherwise port same = same
merge_by_port-IsSameTarget (user ∷ users) otherwise port same =
    elim (Bool-cases (eqz user.container_port port.container_port)) [
      | inl match ↦ rw match (refl, refl)
      | inr other ↦ rw other (merge_by_port-IsSameTarget users otherwise port same)
    ]

merge_port-IsSameTarget :
    (svc : Option StarRocksService) (port : StarRocksServicePort)
    → IsSameTarget (merge_port svc port) port
unfolding merge_port
merge_port-IsSameTarget none port = (refl, refl)
merge_port-IsSameTarget (some svc) port = of_ports svc.ports
  where
    of_ports :
        (ports : Option (List StarRocksServicePort)) → IsSameTarget (merge_ports_of ports port) port
    of_ports none = (refl, refl)
    of_ports (some users) =
        merge_by_port-IsSameTarget users (merge_by_name users port) port
          (merge_by_name-IsSameTarget users port)

-- The names and the target ports of a service's ports.
pub targets : List ServicePort → List (String × ℤ)
targets [] = []
targets (p ∷ ps) = (p.name, p.target_port) ∷ targets ps

-- Those of the ports that the configuration gives.
pub configured_targets : List StarRocksServicePort → List (String × ℤ)
configured_targets [] = []
configured_targets (p ∷ ps) = (p.name, p.container_port) ∷ configured_targets ps

service_ports-targets :
    (svc : Option StarRocksService) (ports : List StarRocksServicePort)
    → targets (service_ports svc ports) ≡ configured_targets ports
unfolding targets configured_targets service_ports service_port
service_ports-targets svc [] = refl
service_ports-targets svc (port ∷ ports) =
    let (name, target) = merge_port-IsSameTarget svc port in
    λ i. (name i, target i) ∷ service_ports-targets svc ports i

-- Whatever ports, type, labels and annotations the user asks for, the external service has exactly
-- the ports of the component, by name, and each leads to the port that the configuration gives.
pub build_external_service-targets :
    (c : Client) (object : StarRocksObject) (kind : SpecKind) (svc : Option StarRocksService)
    (config selector labels : Dict String)
    → targets (build_external_service c object kind svc config selector labels).spec.ports
      ≡ configured_targets (plain_ports kind config)
unfolding build_external_service unhashed_service
build_external_service-targets c object kind svc config selector labels =
    service_ports-targets svc (plain_ports kind config)

-- The hash of the service without the hash is recorded on it, also where the user's annotations
-- bring a value of their own under that key; it is what ApplyService compares.
pub build_external_service-hash :
    (c : Client) (object : StarRocksObject) (kind : SpecKind) (svc : Option StarRocksService)
    (config selector labels : Dict String)
    → annotation component_resource_hash
        (build_external_service c object kind svc config selector labels).meta
      ≡ some (
          c.hash_object HashService
            (service_hash_object (unhashed_service object kind svc config selector labels)))
unfolding build_external_service
build_external_service-hash c object kind svc config selector labels =
    annotation-annotate component_resource_hash component_resource_hash
      (c.hash_object HashService
        (service_hash_object (unhashed_service object kind svc config selector labels)))
      (unhashed_service object kind svc config selector labels).meta
