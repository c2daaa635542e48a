-- ===== src/Kube/Client.antt =====
-- The controller-runtime client and the other libraries that the operator calls, as parameters.
-- `World` is whatever the calls act on: the API server's store, the FE's database, the clock.
-- A read leaves the world as it is; a write yields a new one whether it succeeds or fails.
-- Between the steps of one reconcile no other writer is modelled.
use starrocks_kubernetes_ope.Base.{String, ℤ, List, Dict, Bool, Result}
use starrocks_kubernetes_ope.Base.Results.Stateful.{M}
use starrocks_kubernetes_ope.Kube.Meta.{Raw, Key}
use starrocks_kubernetes_ope.Kube.Pods.{Pod}
use starrocks_kubernetes_ope.Kube.Workloads.{
  StatefulSet, Deployment, Service, ConfigMap, Endpoints, HpaVersion, HorizontalPodAutoscaler,
}

-- The verbs on one kind of object. `create` and `patch` yield the object that the server answers
-- with; `patch` is a strategic merge patch; `merge` is the three-way merge of the last applied, the
-- expected and the actual object (strategicpatch.CreateThreeWayMergePatch).
pub record Store (World Obj : Type 0) : Type 0 where
  pub get : Key → World → Result Obj
  pub create : Obj → M World Obj
  pub update : Obj → M World (Unit {0})
  pub patch : Obj → String → M World Obj
  pub delete : Obj → M World (Unit {0})
  pub marshal : Obj → Result String  -- json.Marshal
  pub patch_meta : Obj → Result (Unit {0})  -- strategicpatch.NewPatchMetaFromStruct
  pub merge : (last expect actual : String) → Result String

-- A pointer, which the printer of the hash tells from the value that it points to.
pub data Pointer (A : Type 0) : Type 0 where
  address_of : A → Pointer A

pub record Client : Type 1 where
  pub World : Type 0
  pub services : Store World Service
  pub statefulsets : Store World StatefulSet
  pub deployments : Store World Deployment
  pub config_maps : Store World ConfigMap
  pub get_hpa : HpaVersion → Key → World → Result HorizontalPodAutoscaler
  pub create_hpa : HorizontalPodAutoscaler → M World (Unit {0})
  pub update_hpa : HorizontalPodAutoscaler → M World (Unit {0})
  pub delete_hpa : HorizontalPodAutoscaler → M World (Unit {0})
  pub get_endpoints : Key → World → Result Endpoints
  pub get_secret : Key → World → Result (Dict String)
  pub list_pods : (namespace : String) → Dict String → World → Result (List Pod)
  -- retry.RetryOnConflict: runs the body again while it fails with a conflict, up to a limit
  pub retry_on_conflict : M World (Unit {0}) → M World (Unit {0})
  -- fnv and spew: the hash of a value of any type, as hash.HashObject prints it
  pub hash_object : (A : Type 0) → A → String
  -- viper: the settings of a file of properties
  pub read_properties : String → Result (Dict String)
  -- resource.MustParse: the quantity of a text, or a panic
  pub parse_quantity : String → Result Raw
  pub now : World → ℤ

-- The command line flags and process-wide variables: cmd/config/config.go, the Kubernetes version
-- of k8sutils.go, and the environment variable KUBE_STARROCKS_UNSUPPORTED_ENVS.
pub record Settings : Type 0 where
  pub kube_major_version : String
  pub kube_minor_version : String
  pub volume_name_with_hash : Bool
  pub dns_domain_suffix : String
  pub fe_ssl_mode : String
  pub unsupported_envs : String
