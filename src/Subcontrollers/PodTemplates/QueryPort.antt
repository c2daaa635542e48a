-- ===== src/Subcontrollers/PodTemplates/QueryPort.antt =====
-- The query port of the FE in the pods of BE and CN: pkg/subcontrollers/be and pkg/subcontrollers/cn.
use mathlib.Core.List.{append_assoc}
use starrocks_kubernetes_ope.Base.{
  String, Option, none, some, List, [], ◌∷◌, ◌++◌, Dict, ok, false, format_int, insert, ◌≡◌, refl,
  sym, ap, ◌∙◌, Result-cases, inl, inr,
}
use starrocks_kubernetes_ope.Base.Results.Fallible.{ok-injective}
use starrocks_kubernetes_ope.Kube.{EnvVar, Container, PodTemplateSpec}
use starrocks_kubernetes_ope.Kube.Client.{Client, Settings}
use starrocks_kubernetes_ope.Api.{SpecKind, fe, be, cn, StarRocksBeSpec, StarRocksCnSpec}
use starrocks_kubernetes_ope.K8sutils.Config.Ports.{get_port, query_port, http_port}
use starrocks_kubernetes_ope.K8sutils.Config.Ports.Laws.{
  query_port_forwarded, query_port_beside_http,
}
use starrocks_kubernetes_ope.K8sutils.Volumes.{member}
use starrocks_kubernetes_ope.Templates.Names.{StarRocksObject, external_service_name}
use starrocks_kubernetes_ope.Templates.Pods.{make_pod_spec}
use starrocks_kubernetes_ope.Templates.Pods.Envs.{
  make_envs, default_envs, plain_env, unsupported_names,
}
use starrocks_kubernetes_ope.Templates.Pods.Envs.Laws.{find_env, find_env-append, make_envs-find}
use starrocks_kubernetes_ope.Controllers.Cluster.{ClusterClient}
use starrocks_kubernetes_ope.Subcontrollers.PodTemplates.{
  Http, be_pod_template, cn_pod_template, template_of, main_container, be_mounts, cn_mounts,
  warehouse_envs, add_warehouse_env, feature_url,
}
use starrocks_kubernetes_ope.Subcontrollers.Be.{with_query_port}
use starrocks_kubernetes_ope.Subcontrollers.Cn.ComputeNodes.{Sql, ComputeNode}
use starrocks_kubernetes_ope.Subcontrollers.Cn.Sync.{with_fe_ports}

-- A variable of the first container, which is the one of StarRocks.
abbrev pub main_env : String → List Container → Option EnvVar
main_env name [] = none
main_env name (container ∷ _) = find_env name container.env

-- The user does not set the variable, and it is not listed as unsupported.
abbrev pub IsLeft : (name unsupported : String) → List EnvVar → Type 0
IsLeft name unsupported envs =
    (find_env name envs ≡ none) × (member name (unsupported_names unsupported) ≡ false)

default-kept :
    (name unsupported : String) (kind : SpecKind) (config : Dict String)
    (fe_service namespace : String) (envs more : List EnvVar) (env : EnvVar)
    → IsLeft name unsupported envs
    → find_env name (default_envs kind config fe_service namespace) ≡ some env
    → find_env name (make_envs unsupported kind config fe_service namespace envs ++ more) ≡ some env
default-kept name unsupported kind config fe_service namespace envs more env (unset, allowed) set =
    find_env-append name (make_envs unsupported kind config fe_service namespace envs) more
    ∙ rw
        (make_envs-find unsupported name kind config fe_service namespace envs, unset, allowed, set)
        refl

-- The variable that says where the FE takes queries.
abbrev pub port_env : (fe_config : Dict String) → EnvVar
port_env fe_config = plain_env "FE_QUERY_PORT" (format_int (get_port fe_config query_port))

-- The container of a BE is told the query port of the FE's configuration, whatever the own
-- configuration of the BE says of it, unless the user sets the variable or lists it as unsupported.
pub be_pod_template-query_port :
    (c : Client) (settings : Settings) (namespace name : String) (spec : StarRocksBeSpec)
    (fe_config own : Dict String) (template : PodTemplateSpec)
    → be_pod_template c settings namespace name spec (with_query_port fe_config own) ≡ ok template
    → IsLeft "FE_QUERY_PORT" settings.unsupported_envs spec.be_env_vars
    → main_env "FE_QUERY_PORT" template.spec.containers ≡ some (port_env fe_config)
unfolding be_pod_template template_of make_pod_spec main_container with_query_port default_envs
be_pod_template-query_port c settings namespace name spec fe_config own template built left =
    elim (Result-cases (be_mounts c settings spec)) [
      | inl (m, mounted) ↦
          ap (λ t. main_env "FE_QUERY_PORT" t.spec.containers)
            (sym (ok-injective (rw mounted at built)))
          ∙ default-kept "FE_QUERY_PORT" settings.unsupported_envs be
              (with_query_port fe_config own) (external_service_name name fe) namespace
              spec.be_env_vars _ (port_env fe_config) left
              (ap (λ port. some (plain_env "FE_QUERY_PORT" (format_int port)))
                (query_port_forwarded fe_config own))
      | inr (inl (e, failed)) ↦ cc (failed, built)
      | inr (inr (p, panicked)) ↦ cc (panicked, built)
    ]

-- The container of a CN, of a cluster or of a warehouse, is told the query port of the FE's
-- configuration, whatever the own configuration of the CN says of it, unless the user sets the
-- variable or lists it as unsupported.
pub cn_pod_template-query_port :
    (c : Client) (settings : Settings) (cluster_client : ClusterClient c.World)
    (sql : Sql c.World ComputeNode) (http : Http c.World) (object : StarRocksObject)
    (spec : StarRocksCnSpec) (fe_config own : Dict String) (w : c.World)
    (template : PodTemplateSpec)
    → cn_pod_template c settings http object spec
        (with_fe_ports c settings cluster_client sql http fe_config own)
        w
      ≡ ok template
    → IsLeft "FE_QUERY_PORT" settings.unsupported_envs spec.cn_env_vars
    → main_env "FE_QUERY_PORT" template.spec.containers ≡ some (port_env fe_config)
unfolding cn_pod_template template_of make_pod_spec main_container with_fe_ports default_envs
cn_pod_template-query_port c settings cluster_client sql http object spec fe_config own w template
      built left =
    let config = with_fe_ports c settings cluster_client sql http fe_config own in
    let warehouse =
      warehouse_envs object.kind (add_warehouse_env http (feature_url c settings object config) w)
        object.meta.name in
    elim (Result-cases (cn_mounts c settings spec)) [
      | inl (m, mounted) ↦ elim (Result-cases warehouse) [
        | inl (extra, added) ↦
            ap (λ t. main_env "FE_QUERY_PORT" t.spec.containers)
              (sym (ok-injective (rw (mounted, added) at built)))
            ∙ ap (find_env "FE_QUERY_PORT") (
                append_assoc
                  (make_envs settings.unsupported_envs cn config
                    (external_service_name object.cluster_name fe) object.meta.namespace
                    spec.cn_env_vars)
                  extra _)
            ∙ default-kept "FE_QUERY_PORT" settings.unsupported_envs cn config
                (external_service_name object.cluster_name fe) object.meta.namespace
                spec.cn_env_vars _ (port_env fe_config) left
                (ap (λ port. some (plain_env "FE_QUERY_PORT" (format_int port)))
                  (query_port_beside_http
                      (insert query_port (format_int (get_port fe_config query_port)) own)
                      (format_int (get_port fe_config http_port))
                    ∙ query_port_forwarded fe_config own))
        | inr (inl (e, failed)) ↦ cc (mounted, failed, built)
        | inr (inr (p, panicked)) ↦ cc (mounted, panicked, built)
      ]
      | inr (inl (e, failed)) ↦ cc (failed, built)
      | inr (inr (p, panicked)) ↦ cc (panicked, built)
    ]
