-- ===== src/Templates/Pods/Envs.antt =====
-- The environment variables of the main container: Envs of pkg/k8sutils/templates/pod/spec.go.
pub mod Laws
use starrocks_kubernetes_ope.Base.{
  String, Option, none, some, List, [], ◌∷◌, ◌++◌, Dict, Bool, format_int, split, map,
  if◌then◌else◌, ◌<>◌, ◌||◌,
}
use starrocks_kubernetes_ope.Kube.{Raw, EnvVar, other_source}
use starrocks_kubernetes_ope.Api.{SpecKind, fe, be, cn, fe_proxy}
use starrocks_kubernetes_ope.K8sutils.Config.Ports.{get_port, query_port}
use starrocks_kubernetes_ope.K8sutils.Volumes.{member}
use text.Mathlib.Text.{◌==◌}

abbrev pub plain_env : (name value : String) → EnvVar
plain_env name value = record { name = name; value = value; value_from = none }

abbrev field_env : (name : String) (path : Raw) → EnvVar
field_env name path = record { name = name; value = ""; value_from = some (other_source path) }

-- KUBE_STARROCKS_UNSUPPORTED_ENVS, split at the commas
unfoldable pub unsupported_names : String → List String
unfolding split
unsupported_names text = if text == "" then [] else split b',' text

abbrev pub names_of : List EnvVar → List String
names_of = map (λ env. env.name)

-- addEnv; the keys of the map are the names of the variables so far
unfoldable pub add_env : (unsupported : List String) → List EnvVar → EnvVar → List EnvVar
add_env unsupported envs env =
    if member env.name (names_of envs) || member env.name unsupported
    then envs
    else envs ++ env ∷ []

unfoldable pub add_envs : (unsupported : List String) → (envs added : List EnvVar) → List EnvVar
unfolding add_env
add_envs unsupported envs [] = envs
add_envs unsupported envs (env ∷ added) = add_envs unsupported (add_env unsupported envs env) added

-- The variables of every component.
abbrev common_envs : List EnvVar
common_envs =
    field_env "POD_NAME" "metadata.name"
    ∷ field_env "POD_IP" "status.podIP"
    ∷ field_env "HOST_IP" "status.hostIP"
    ∷ field_env "POD_NAMESPACE" "metadata.namespace"
    ∷ plain_env "HOST_TYPE" "FQDN"
    ∷ []

-- The variables of the component.
kind_envs : SpecKind → Dict String → (fe_service namespace : String) → List EnvVar
unfolding get_port format_int
kind_envs fe config fe_service namespace =
    plain_env "COMPONENT_NAME" "fe"
    ∷ plain_env "FE_SERVICE_NAME" (fe_service <> "." <> namespace)
    ∷ []
kind_envs be config fe_service namespace =
    plain_env "COMPONENT_NAME" "be"
    ∷ plain_env "FE_SERVICE_NAME" fe_service
    ∷ plain_env "FE_QUERY_PORT" (format_int (get_port config query_port))
    ∷ []
kind_envs cn config fe_service namespace =
    plain_env "COMPONENT_NAME" "cn"
    ∷ plain_env "FE_SERVICE_NAME" fe_service
    ∷ plain_env "FE_QUERY_PORT" (format_int (get_port config query_port))
    ∷ []
kind_envs fe_proxy config fe_service namespace = []

-- The variables that the operator sets by default, in their order.
unfoldable pub default_envs : SpecKind → Dict String → (fe_service namespace : String) → List EnvVar
unfolding kind_envs
default_envs kind config fe_service namespace =
    common_envs ++ kind_envs kind config fe_service namespace

-- Envs
unfoldable pub make_envs :
    (unsupported : String)
    → SpecKind
    → Dict String
    → (fe_service namespace : String) → List EnvVar
    → List EnvVar
unfolding unsupported_names add_envs default_envs
make_envs unsupported kind config fe_service namespace envs =
    add_envs (unsupported_names unsupported) envs (default_envs kind config fe_service namespace)
