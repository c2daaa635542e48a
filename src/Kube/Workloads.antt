-- ===== src/Kube/Workloads.antt =====
-- appsv1, corev1 and autoscaling: the objects that the operator creates, and those it reads.
use starrocks_kubernetes_ope.Base.{String, ℤ, Option, List, Dict, Bool}
use starrocks_kubernetes_ope.Kube.Meta.{Raw, ObjectMeta, Access}
use starrocks_kubernetes_ope.Kube.Pods.{PodTemplateSpec}

pub record RollingUpdate : Type 0 where
  pub partition : Option ℤ
  pub max_unavailable : Option String  -- its String()

pub record UpdateStrategy : Type 0 where
  pub type : String
  pub rolling_update : Option RollingUpdate

pub record RetentionPolicy : Type 0 where
  pub when_deleted : String
  pub when_scaled : String

pub record PersistentVolumeClaim : Type 0 where
  pub name : String
  pub access_modes : List String
  pub storage_class_name : Option String
  pub storage : Option Raw  -- the parsed quantity

pub record StatefulSetSpec : Type 0 where
  pub replicas : Option ℤ
  pub selector : Option (Dict String)
  pub template : PodTemplateSpec
  pub volume_claim_templates : List PersistentVolumeClaim
  pub service_name : String
  pub pod_management_policy : String
  pub update_strategy : UpdateStrategy
  pub min_ready_seconds : ℤ
  pub retention_policy : Option RetentionPolicy

pub record StatefulSetStatus : Type 0 where
  pub observed_generation : ℤ
  pub replicas : ℤ
  pub ready_replicas : ℤ
  pub current_replicas : ℤ
  pub updated_replicas : ℤ
  pub current_revision : String
  pub update_revision : String

pub record StatefulSet : Type 0 where
  pub meta : ObjectMeta
  pub spec : StatefulSetSpec
  pub status : StatefulSetStatus

pub record DeploymentCondition : Type 0 where
  pub type : String
  pub reason : String

pub record DeploymentStatus : Type 0 where
  pub observed_generation : ℤ
  pub replicas : ℤ
  pub updated_replicas : ℤ
  pub available_replicas : ℤ
  pub conditions : List DeploymentCondition

pub record DeploymentSpec : Type 0 where
  pub replicas : Option ℤ
  pub selector : Dict String
  pub template : PodTemplateSpec

pub record Deployment : Type 0 where
  pub meta : ObjectMeta
  pub spec : DeploymentSpec
  pub status : DeploymentStatus

pub record ServicePort : Type 0 where
  pub name : String
  pub port : ℤ
  pub target_port : ℤ
  pub node_port : ℤ
  pub protocol : String
  pub app_protocol : Option String

pub record ServiceSpec : Type 0 where
  pub type : String
  pub ports : List ServicePort
  pub selector : Dict String
  pub cluster_ip : String
  pub load_balancer_ip : String
  pub load_balancer_source_ranges : Option (List String)
  pub external_traffic_policy : String
  pub publish_not_ready_addresses : Bool

pub record Service : Type 0 where
  pub meta : ObjectMeta
  pub spec : ServiceSpec

pub record ConfigMap : Type 0 where
  pub meta : ObjectMeta
  pub contents : Dict String  -- the field Data

-- The addresses of each subset that are ready.
pub record Endpoints : Type 0 where
  pub subsets : List (List String)

pub data HpaVersion : Type 0 where
  hpa_v1 hpa_v2beta2 hpa_v2 : HpaVersion

pub record HorizontalPodAutoscaler : Type 0 where
  pub version : HpaVersion
  pub meta : ObjectMeta
  pub target : String × String × String  -- name, kind and API version of the scaled object
  pub min_replicas : Option ℤ
  pub max_replicas : ℤ
  pub metrics : List Raw
  pub behavior : Option Raw

abbrev pub statefulset_access : Access StatefulSet
statefulset_access = record { meta = λ o. o.meta; with_meta = λ m o. record o { meta = m } }

abbrev pub deployment_access : Access Deployment
deployment_access = record { meta = λ o. o.meta; with_meta = λ m o. record o { meta = m } }

abbrev pub service_access : Access Service
service_access = record { meta = λ o. o.meta; with_meta = λ m o. record o { meta = m } }

abbrev pub config_map_access : Access ConfigMap
config_map_access = record { meta = λ o. o.meta; with_meta = λ m o. record o { meta = m } }
