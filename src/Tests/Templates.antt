-- ===== src/Tests/Templates.antt =====
-- Pod templates and stateful sets at concrete inputs.
use starrocks_kubernetes_ope.Base.{
  String, Dict, format_int, none, some, [], ◌∷◌, List, Result, ok, false, ◌≡◌, refl,
}
use starrocks_kubernetes_ope.Kube.{EnvVar, PodTemplateSpec, StatefulSet}
use starrocks_kubernetes_ope.Api.{
  Spec, StarRocksFeSpec, StarRocksBeSpec, StarRocksCnSpec, StarRocksLoadSpec, StorageVolume,
}
use starrocks_kubernetes_ope.Api as Api
use starrocks_kubernetes_ope.Templates.Names.{StarRocksObject, new_from_cluster}
use starrocks_kubernetes_ope.Templates.Pods.Envs.{unsupported_names, plain_env}
use starrocks_kubernetes_ope.Templates.Workloads.{make_statefulset}
use starrocks_kubernetes_ope.Templates.Workloads.Laws.{names_of_claims, claims_in}
use starrocks_kubernetes_ope.Subcontrollers.PodTemplates.{
  fe_pod_template, be_pod_template, cn_pod_template,
}
use starrocks_kubernetes_ope.Subcontrollers.PodTemplates.Laws.{IsMounted}
use starrocks_kubernetes_ope.Subcontrollers.PodTemplates.Built.{
  Built, built_fe, main_mounts, Built-IsMounted, Built-claims,
}
use starrocks_kubernetes_ope.Subcontrollers.PodTemplates.QueryPort.{
  main_env, be_pod_template-query_port, cn_pod_template-query_port,
}
use starrocks_kubernetes_ope.Subcontrollers.Be.{with_query_port}
use starrocks_kubernetes_ope.Subcontrollers.Cn.Sync.{with_fe_ports}
use starrocks_kubernetes_ope.K8sutils.Config.Ports.{get_port}
use starrocks_kubernetes_ope.Tests.Sync.{clusters, sql, http}
use starrocks_kubernetes_ope.Tests.Fixtures.{
  client, settings, server, cluster, load_spec, set, template,
}
use starrocks_kubernetes_ope.Tests.Fixtures as Fixtures

abbrev user_envs : List EnvVar
user_envs = plain_env "HOST_TYPE" "IP" ∷ []

abbrev meta_volume : StorageVolume
meta_volume = record {
  name = "fe-meta";
  storage_class_name = some "ssd";
  storage_size = "10Gi";
  host_path = none;
  csi = none;
  mount_path = "/opt/starrocks/fe/meta";
  sub_path = "";
  read_only = false;
}

abbrev spec : StarRocksFeSpec
spec = record (Fixtures.fe_spec) {
  component = record (Fixtures.fe_spec.component) {
    load = record load_spec { storage_volumes = meta_volume ∷ [] };
  };
}

abbrev value_or : {A : Type 0} → A → Result A → A
value_or a (ok b) = b
value_or a r = a

expected_template : PodTemplateSpec
unfolding fe_pod_template
expected_template = value_or template (fe_pod_template client settings "db" "sr" spec [])

expected_set : StatefulSet
unfolding make_statefulset expected_template
expected_set =
    value_or set
      (make_statefulset client (new_from_cluster cluster) (Api.fe_spec spec) expected_template)

built : Built client settings server (Api.fe_spec spec) expected_template
unfolding fe_pod_template expected_template
built = built_fe "db" "sr" spec [] expected_template refl

fe_template-IsMounted : IsMounted (meta_volume ∷ []) (main_mounts client settings expected_template)
fe_template-IsMounted =
    Built-IsMounted client settings server (Api.fe_spec spec) expected_template built

claims_example :
    names_of_claims expected_set.spec.volume_claim_templates
    ≡ claims_in expected_set.spec.template.spec.volumes
unfolding make_statefulset expected_set Api.equals_ignore_case
claims_example =
    Built-claims client settings server (new_from_cluster cluster) (Api.fe_spec spec)
      expected_template expected_set built refl

-- The FE takes queries at another port than the own configuration of the node says.
abbrev fe_config : Dict String
fe_config = ("query_port", "19030") ∷ []

abbrev own_config : Dict String
own_config = ("query_port", "9030") ∷ []

abbrev be_spec : StarRocksBeSpec
be_spec = record { component = spec.component; be_env_vars = user_envs }

abbrev cn_spec : StarRocksCnSpec
cn_spec = record { component = spec.component; cn_env_vars = user_envs; auto_scaling_policy = none }

be_template : PodTemplateSpec
unfolding be_pod_template with_query_port
be_template =
    value_or template
      (be_pod_template client settings "db" "sr" be_spec (with_query_port fe_config own_config))

be_query_port_example :
    main_env "FE_QUERY_PORT" be_template.spec.containers ≡ some (plain_env "FE_QUERY_PORT" "19030")
unfolding be_pod_template with_query_port be_template unsupported_names get_port format_int
    Api.equals_ignore_case
be_query_port_example =
    be_pod_template-query_port client settings "db" "sr" be_spec fe_config own_config be_template
      refl (refl, refl)

abbrev node_object : StarRocksObject
node_object = new_from_cluster cluster

cn_template : PodTemplateSpec
unfolding cn_pod_template with_fe_ports
cn_template = value_or template (
    cn_pod_template client settings http node_object cn_spec
      (with_fe_ports client settings clusters sql http fe_config own_config) server)

cn_query_port_example :
    main_env "FE_QUERY_PORT" cn_template.spec.containers ≡ some (plain_env "FE_QUERY_PORT" "19030")
unfolding cn_pod_template with_fe_ports cn_template unsupported_names get_port format_int
    Api.equals_ignore_case new_from_cluster
cn_query_port_example =
    cn_pod_template-query_port client settings clusters sql http node_object cn_spec fe_config
      own_config server cn_template refl (refl, refl)
