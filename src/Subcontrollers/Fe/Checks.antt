-- ===== src/Subcontrollers/Fe/Checks.antt =====
-- The checks on the FE that the other sub-controllers wait for: CheckFEReady and
-- CheckFEFullyRolledOut of pkg/subcontrollers/fe/fe_controller.go, CheckFEReadyInDisasterRecovery of
-- fe_disaster_recovery.go, IsRunInSharedDataMode of feconfig.go. An error of a Get or a List is
-- logged and answered with false.
pub mod Laws
use starrocks_kubernetes_ope.Base.{
  String, ℤ, Option, none, some, List, [], ◌∷◌, Dict, lookup, insert, contains, Bool, true, false,
  Result, ok, err, panic, ltz, any, format_int, if◌then◌else◌, ◌||◌, ◌&&◌, not,
}
use starrocks_kubernetes_ope.Kube.{
  Key, Endpoints, StatefulSet, Pod, Container, EnvVar, ContainerStatus,
}
use starrocks_kubernetes_ope.Kube.Client.{Client}
use starrocks_kubernetes_ope.Api.{fe}
use starrocks_kubernetes_ope.Templates.Names.{
  load_name, load_labels, external_service_name, default_name, owner_reference, component_label_key,
}
use text.Mathlib.Text.{◌==◌}

mentions_shared_data : Option String → Bool
unfolding contains
mentions_shared_data none = false
mentions_shared_data (some mode) = contains mode "shared_data"

-- IsRunInSharedDataMode
unfoldable pub is_run_in_shared_data_mode : Dict String → Bool
unfolding lookup mentions_shared_data
is_run_in_shared_data_mode config = mentions_shared_data (lookup "run_mode" config)

has_address : List (List String) → Bool
has_address [] = false
has_address ([] ∷ subsets) = has_address subsets
has_address ((a ∷ as') ∷ subsets) = true

is_short_of : ℤ → Option ℤ → Bool
is_short_of ready none = false
is_short_of ready (some wanted) = ltz ready wanted

-- The answer of CheckFEFullyRolledOut for the stateful set of the FE.
unfoldable pub is_fully_rolled_out : StatefulSet → Bool
unfolding is_short_of
is_fully_rolled_out sts =
    if is_short_of sts.status.ready_replicas sts.spec.replicas
    then false
    else if not (sts.status.update_revision == sts.status.current_revision)
    then false
    else true

unfoldable pub has_generation : (generation : ℤ) → List EnvVar → Bool
unfolding format_int
has_generation generation envs = any (λ env. env.value == format_int generation) envs

containers_follow : (generation : ℤ) → List Container → Bool
unfolding has_generation default_name
containers_follow generation [] = true
containers_follow generation (container ∷ containers) =
    let rest = containers_follow generation containers in
    if not (container.name == default_name fe)
    then rest
    else if not (has_generation generation container.env)
    then false
    else rest

statuses_ready : List ContainerStatus → Bool
unfolding default_name
statuses_ready [] = true
statuses_ready (status ∷ statuses) =
    let rest = statuses_ready statuses in
    if not (status.name == default_name fe) then rest else if not status.ready then false else rest

some_status_and_ready : List ContainerStatus → Bool
unfolding statuses_ready
some_status_and_ready [] = false
some_status_and_ready (status ∷ statuses) = statuses_ready (status ∷ statuses)

pods_recovered : (generation : ℤ) → List Pod → Bool
unfolding containers_follow some_status_and_ready
pods_recovered generation [] = true
pods_recovered generation (pod ∷ pods) =
    let rest = pods_recovered generation pods in
    if not (containers_follow generation pod.containers)
    then false
    else if not (some_status_and_ready pod.status.container_statuses)
    then false
    else rest

-- The answer of CheckFEReadyInDisasterRecovery for the pods that it lists.
unfoldable pub recovered : (generation : ℤ) → Result (List Pod) → Bool
unfolding pods_recovered
recovered generation (ok []) = false
recovered generation (ok (pod ∷ pods)) = pods_recovered generation (pod ∷ pods)
recovered generation _ = false

abbrev answer : {A : Type 0} → (A → Bool) → Result A → Bool
answer test (ok a) = test a
answer test _ = false

module _ (c : Client) where
  -- CheckFEReady
  unfoldable pub check_fe_ready : (namespace cluster_name : String) → c.World → Bool
  unfolding external_service_name has_address
  check_fe_ready namespace cluster_name w =
      answer (λ e. has_address e.subsets)
        (c.get_endpoints
          (record { namespace = namespace; name = external_service_name cluster_name fe }) w)

  -- CheckFEFullyRolledOut
  unfoldable pub check_fe_fully_rolled_out : (namespace cluster_name : String) → c.World → Bool
  unfolding load_name is_fully_rolled_out
  check_fe_fully_rolled_out namespace cluster_name w =
      answer is_fully_rolled_out
        (c.statefulsets.get (record { namespace = namespace; name = load_name cluster_name fe }) w)

  -- CheckFEReadyInDisasterRecovery
  unfoldable pub check_fe_ready_in_disaster_recovery :
      (namespace cluster_name : String) (generation : ℤ) → c.World → Bool
  unfolding load_name default_name recovered insert
  check_fe_ready_in_disaster_recovery namespace cluster_name generation w = recovered generation (
      c.list_pods namespace
        (insert component_label_key (default_name fe)
          (insert owner_reference (load_name cluster_name fe) []))
        w)
