-- ===== src/Templates/Names.antt =====
-- Names and labels: pkg/k8sutils/load/metadata.go and load.go, pkg/k8sutils/templates/object/meta.go,
-- SearchServiceName and ExternalServiceName of pkg/k8sutils/templates/service/spec.go.
pub mod Laws
use starrocks_kubernetes_ope.Base.{
  String, Option, none, some, Dict, [], ◌∷◌, insert, replace_all, ◌<>◌, Bool, true, false,
  if◌then◌else◌,
}
use starrocks_kubernetes_ope.Kube.{ObjectMeta}
use starrocks_kubernetes_ope.Api.{
  SpecKind, fe, be, cn, fe_proxy, Spec, kind_of, StarRocksCluster, StarRocksWarehouse,
  StarRocksService,
}
use text.Mathlib.Text.{◌==◌}

-- The labels' keys and the components' names: pkg/apis/starrocks/v1/labels.go.
abbrev pub owner_reference : String
owner_reference = "app.starrocks.ownerreference/name"

abbrev pub component_label_key : String
component_label_key = "app.kubernetes.io/component"

-- DEFAULT_FE, DEFAULT_BE, DEFAULT_CN and DEFAULT_FE_PROXY
unfoldable pub default_name : SpecKind → String
default_name fe = "fe"
default_name be = "be"
default_name cn = "cn"
default_name fe_proxy = "fe-proxy"

-- load.Name
unfoldable pub load_name : (cluster_name : String) → SpecKind → String
unfolding default_name
load_name cluster_name kind = cluster_name <> "-" <> default_name kind

-- load.Labels
unfoldable pub load_labels : (owner : String) → SpecKind → Dict String
unfolding default_name insert
load_labels owner kind =
    insert component_label_key (default_name kind) (insert owner_reference owner [])

-- load.Selector
unfoldable pub load_selector : (cluster_name : String) → SpecKind → Dict String
unfolding load_name load_labels
load_selector cluster_name kind = load_labels (load_name cluster_name kind) kind

pub data ObjectKind : Type 0 where
  cluster_kind warehouse_kind : ObjectKind

-- StarRocksObject; the field Kind is the type of the object
pub record StarRocksObject : Type 0 where
  pub api_version : String
  pub meta : ObjectMeta
  pub cluster_name : String
  pub kind : ObjectKind
  pub type_kind : String  -- TypeMeta.Kind, which may be empty
  pub sub_resource_prefix_name : String
  pub is_warehouse_object : Bool

-- GetPrefixNameForWarehouse
unfoldable pub prefix_name_for_warehouse : String → String
prefix_name_for_warehouse name = name <> "-warehouse"

-- NewFromCluster
unfoldable pub new_from_cluster : StarRocksCluster → StarRocksObject
new_from_cluster cluster = record {
  api_version = cluster.api_version;
  meta = cluster.meta;
  cluster_name = cluster.meta.name;
  kind = cluster_kind;
  type_kind = cluster.kind;
  sub_resource_prefix_name = cluster.meta.name;
  is_warehouse_object = false;
}

-- NewFromWarehouse
unfoldable pub new_from_warehouse : StarRocksWarehouse → StarRocksObject
unfolding prefix_name_for_warehouse
new_from_warehouse warehouse = record {
  api_version = warehouse.api_version;
  meta = warehouse.meta;
  cluster_name = warehouse.starrocks_cluster;
  kind = warehouse_kind;
  type_kind = warehouse.kind;
  sub_resource_prefix_name = prefix_name_for_warehouse warehouse.meta.name;
  is_warehouse_object = true;
}

-- GetWarehouseNameInFE
unfoldable pub warehouse_name_in_fe : String → String
unfolding replace_all
warehouse_name_in_fe name = replace_all b'-' "_" name

-- GetCNStatefulSetName
unfoldable pub cn_statefulset_name : StarRocksObject → String
unfolding load_name
cn_statefulset_name object = load_name object.sub_resource_prefix_name cn

-- SearchServiceName
unfoldable pub search_service_name : (cluster_name : String) → SpecKind → String
search_service_name cluster_name be = cluster_name <> "-be-search"
search_service_name cluster_name cn = cluster_name <> "-cn-search"
search_service_name cluster_name fe = cluster_name <> "-fe-search"
search_service_name cluster_name fe_proxy = ""

-- ExternalServiceName
unfoldable pub external_service_name : (cluster_name : String) → SpecKind → String
unfolding default_name
external_service_name cluster_name kind = cluster_name <> "-" <> default_name kind <> "-service"
