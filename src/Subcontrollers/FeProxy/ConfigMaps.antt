-- ===== src/Subcontrollers/FeProxy/ConfigMaps.antt =====
-- The config map of the FE proxy: SyncConfigMap of pkg/subcontrollers/feproxy/feproxy_configmap.go.
use starrocks_kubernetes_ope.Base.{
  String, pos, none, [], ◌∷◌, Dict, format_int, if◌then◌else◌, ◌<>◌,
}
use starrocks_kubernetes_ope.Base.Results.Stateful.{M, ◌>>=◌, read}
use starrocks_kubernetes_ope.Kube.{ConfigMap}
use starrocks_kubernetes_ope.Kube.Client.{Client, Settings}
use starrocks_kubernetes_ope.Api.{fe, fe_proxy, StarRocksFeProxySpec, StarRocksCluster}
use starrocks_kubernetes_ope.K8sutils.Apply.{apply_config_map}
use starrocks_kubernetes_ope.K8sutils.Config.Ports.{get_port, http_port}
use starrocks_kubernetes_ope.Templates.Names.{
  load_name, load_labels, search_service_name, external_service_name,
}
use starrocks_kubernetes_ope.Templates.Workloads.{controller_ref}
use starrocks_kubernetes_ope.Subcontrollers.Fe.Config.{get_fe_config}
use starrocks_kubernetes_ope.Subcontrollers.FeProxy.Nginx.{nginx_conf}
use text.Mathlib.Text.{◌==◌}

-- GetServiceDomainSuffix of cmd/config/config.go
unfoldable pub service_domain_suffix : Settings → String
service_domain_suffix settings = "svc." <> settings.dns_domain_suffix

-- The address of the FE that requests are passed to.
unfoldable pub proxy_pass_of : Settings → StarRocksCluster → (fe_config : Dict String) → String
unfolding external_service_name service_domain_suffix format_int get_port
proxy_pass_of settings src fe_config =
    "http://"
    <> external_service_name src.meta.name fe
    <> "."
    <> src.meta.namespace
    <> "."
    <> service_domain_suffix settings
    <> ":"
    <> format_int (get_port fe_config http_port)

resolver_of : Settings → StarRocksFeProxySpec → String
unfolding service_domain_suffix
resolver_of settings spec =
    if spec.resolver == ""
    then "kube-dns.kube-system." <> service_domain_suffix settings
    else spec.resolver

-- The config map that is applied.
unfoldable pub proxy_config_map :
    Settings → StarRocksCluster → StarRocksFeProxySpec → (fe_config : Dict String) → ConfigMap
unfolding load_name load_labels resolver_of proxy_pass_of search_service_name nginx_conf
proxy_config_map settings src spec fe_config = record {
  meta = record {
    name = load_name src.meta.name fe_proxy;
    namespace = src.meta.namespace;
    uid = "";
    labels = load_labels src.meta.name fe_proxy;
    annotations = none;
    finalizers = none;
    owner_references = controller_ref src.api_version src.kind src.meta ∷ [];
    resource_version = "";
    generation = pos 0;
    deletion_timestamp = none;
  };
  contents =
      (
        "nginx.conf",
        nginx_conf (resolver_of settings spec) (proxy_pass_of settings src fe_config)
            (search_service_name src.meta.name fe),
      )
      ∷ [];
}

-- SyncConfigMap
unfoldable pub sync_config_map :
    (c : Client) → Settings → StarRocksCluster → StarRocksFeProxySpec → M c.World (Unit {0})
unfolding get_fe_config proxy_config_map apply_config_map
sync_config_map c settings src spec = do
  fe_config ← read (get_fe_config c src.meta.namespace src.spec.fe_spec)
  apply_config_map c (proxy_config_map settings src spec fe_config)
