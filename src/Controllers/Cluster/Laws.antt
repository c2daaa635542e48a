-- ===== src/Controllers/Cluster/Laws.antt =====
-- The phase of a cluster, and what a failing sub-controller leaves behind:
-- pkg/controllers/starrockscluster_controller.go.
use starrocks_kubernetes_ope.Base.{
  ℤ, ◌⊎◌, Option, none, some, List, [], ◌∷◌, ◌++◌, Result, ok, err, panic, Error, is_not_found, ◌≡◌,
  ◌≢◌, ◌↔◌, refl, arith, ap, ◌∙◌, inl, inr, true,
}
use starrocks_kubernetes_ope.Base.Results.Stateful.{
  M, and_then, caught, ◌>>=◌, ◌>>◌, fail, try, panic-ne-ok,
}
use starrocks_kubernetes_ope.Kube.{Key}
use starrocks_kubernetes_ope.Api.{
  SpecKind, Phase, phase_unset, cluster_running, cluster_failed, cluster_reconciling,
  component_running, StarRocksComponentStatus, StarRocksCluster,
}
use starrocks_kubernetes_ope.Controllers.Cluster.{
  Local, ClusterSubController, ClusterClient, phase_from_component, cn_component, reconcile_status,
  first_set, on_world, with_world, handle_sync_cluster_error, update_cluster_status, run_all,
  settle, on_error, reconcile_found, reconcile, reconcile_cluster, reconcile_alive, unless_deleted,
  modify,
}

-- A component that is not there, or is Running.
abbrev pub IsUp : Option StarRocksComponentStatus → Type 0
IsUp none = Unit {0}
IsUp (some status) = status.phase ≡ component_running

phase_from_component_iff :
    (o : Option StarRocksComponentStatus) → (phase_from_component o ≡ phase_unset) ↔ IsUp o
unfolding phase_from_component
phase_from_component_iff none = ground arith
phase_from_component_iff (some status) = ground arith

first_set_running_iff :
    (p q : Phase)
    → p ≢ cluster_running
    → (first_set p q ≡ cluster_running) ↔ ((p ≡ phase_unset) × (q ≡ cluster_running))
unfolding first_set
first_set_running_iff phase_unset q other = ground arith
first_set_running_iff cluster_running q other = absurd (other refl)
first_set_running_iff cluster_failed q other = ground arith
first_set_running_iff cluster_reconciling q other = ground arith

phase_from_component-ne-running :
    (o : Option StarRocksComponentStatus) → phase_from_component o ≢ cluster_running
unfolding phase_from_component
phase_from_component-ne-running none = ground arith
phase_from_component-ne-running (some status) = ground arith

-- The cluster is Running exactly where each of FE, BE and CN is absent or Running; the FE proxy's
-- status does not count.
pub reconcile_status_running_iff :
    (src : StarRocksCluster)
    → ((reconcile_status src).status.phase ≡ cluster_running) ↔ (
        IsUp src.status.fe_status
        × IsUp src.status.be_status
        × IsUp (cn_component src.status.cn_status))
unfolding reconcile_status
reconcile_status_running_iff src = ground (
  arith,
  phase_from_component_iff src.status.fe_status,
  phase_from_component_iff src.status.be_status,
  phase_from_component_iff (cn_component src.status.cn_status),
)

-- The continuation of a call that may fail splits where a list does.
and_then_split :
    {S : Type 0} (x : Result (Unit {0}) × S) (f g h : M S (Unit {0}))
    → ((s : S) → f s ≡ (g >> h) s)
    → and_then x (λ _. f) ≡ and_then (and_then x (λ _. g)) (λ _. h)
and_then_split (ok tt, s) f g h e = e s
and_then_split (err e, s) f g h _ = refl
and_then_split (panic p, s) f g h _ = refl

caught-with_world :
    {W : Type 0} (x : Result (Unit {0}) × W) (l : Local W) (logged : Result (Unit {0})) (w : W)
    → caught x ≡ (ok logged, w)
    → caught (with_world l x) ≡ (ok logged, record l { world = w })
caught-with_world (ok tt, v) l logged w h = λ i. ((h i).0, record l { world = (h i).1 })
caught-with_world (err e, v) l logged w h = λ i. ((h i).0, record l { world = (h i).1 })
caught-with_world (panic p, v) l logged w h = absurd (panic-ne-ok h)

module _ {W : Type 0} (client : ClusterClient W) where
  run_all-append :
      (step : ClusterSubController W → M (Local W) (Unit {0}))
      (before after : List (ClusterSubController W)) (l : Local W)
      → run_all client step (before ++ after) l
        ≡ (run_all client step before >> run_all client step after) l
  unfolding run_all
  run_all-append step [] after l = refl
  run_all-append step (controller ∷ before) after l =
      and_then_split ((try (step controller) >>= settle client controller.kind) l)
        (run_all client step (before ++ after)) (run_all client step before)
        (run_all client step after) (run_all-append step before after)

  -- The loop goes on from what a step that succeeds has left.
  pub run_all-step :
      (step : ClusterSubController W → M (Local W) (Unit {0})) (controller : ClusterSubController W)
      (after : List (ClusterSubController W)) (l l1 : Local W)
      → step controller l ≡ (ok tt, l1)
      → run_all client step (controller ∷ after) l ≡ run_all client step after l1
  unfolding run_all settle
  run_all-step step controller after l l1 done = rw done refl

  failed : SpecKind → Error → Local W → Local W
  failed kind e l = record l { src = handle_sync_cluster_error kind e l.src }

  settle-err :
      (kind : SpecKind) (e : Error) (l : Local W) (logged : Result (Unit {0})) (w : W)
      → caught (update_cluster_status client (failed kind e l).src l.world) ≡ (ok logged, w)
      → settle client kind (err e) l ≡ (err e, record (failed kind e l) { world = w })
  unfolding settle on_error failed
  settle-err kind e l logged w h =
      ap (λ r. and_then r (λ _. fail e))
        (caught-with_world (update_cluster_status client (failed kind e l).src l.world)
          (failed kind e l) logged w h)

  run_all-first_error :
      (step : ClusterSubController W → M (Local W) (Unit {0}))
      (before after : List (ClusterSubController W)) (controller : ClusterSubController W)
      (l l1 l2 : Local W) (e : Error) (logged : Result (Unit {0})) (w : W)
      → run_all client step before l ≡ (ok tt, l1)
      → step controller l1 ≡ (err e, l2)
      → caught (update_cluster_status client (failed controller.kind e l2).src l2.world)
        ≡ (ok logged, w)
      → run_all client step (before ++ controller ∷ after) l
        ≡ (err e, record (failed controller.kind e l2) { world = w })
  unfolding run_all
  run_all-first_error step before after controller l l1 l2 e logged w on_before on_step on_update =
      rw
        (
          run_all-append step before (controller ∷ after) l,
          on_before,
          on_step,
          settle-err controller.kind e l2 logged w on_update,
        )
        refl

  reconcile_alive-first_error :
      (before after : List (ClusterSubController W)) (controller : ClusterSubController W)
      (src : StarRocksCluster) (l1 l2 : Local W) (e : Error) (logged : Result (Unit {0})) (w w' : W)
      → run_all client (λ s. s.sync_cluster) before (record { src = src; world = w }) ≡ (ok tt, l1)
      → controller.sync_cluster l1 ≡ (err e, l2)
      → caught (
          update_cluster_status client
            (handle_sync_cluster_error controller.kind e l2.src)
            l2.world)
        ≡ (ok logged, w')
      → reconcile_alive client (before ++ controller ∷ after) src w ≡ (err e, w')
  unfolding reconcile_alive reconcile_found failed
  reconcile_alive-first_error before after controller src l1 l2 e logged w w' on_before on_step
        on_update =
      ap
        (λ r.
          let (answer, l) = and_then r (λ _.
            run_all client (λ s. s.update_cluster_status) (before ++ controller ∷ after)
            >> (modify reconcile_status
                >> (λ l. on_world (update_cluster_status client l.src) l))) in
          (answer, l.world))
        (run_all-first_error (λ s. s.sync_cluster) before after controller
          (record { src = src; world = w }) l1 l2 e logged w' on_before on_step on_update)

  -- A sub-controller that fails stops the reconcile: those after it are not run, no status is worked
  -- out, and what is written is the cluster as the sub-controllers have left it, with the phase
  -- Failed and the reason of that error. An error of this write is dropped, and Reconcile answers the
  -- sub-controller's.
  pub reconcile-first_error :
      (before after : List (ClusterSubController W)) (controller : ClusterSubController W)
      (key : Key) (src : StarRocksCluster) (l1 l2 : Local W) (e : Error)
      (logged : Result (Unit {0})) (w w' : W)
      → client.get_cluster key w ≡ ok src
      → src.meta.deletion_timestamp ≡ none
      → run_all client (λ s. s.sync_cluster) before (record { src = src; world = w }) ≡ (ok tt, l1)
      → controller.sync_cluster l1 ≡ (err e, l2)
      → caught (
          update_cluster_status client
            (handle_sync_cluster_error controller.kind e l2.src)
            l2.world)
        ≡ (ok logged, w')
      → reconcile client (before ++ controller ∷ after) key w ≡ (err e, w')
  unfolding reconcile reconcile_cluster reconcile_found failed
  reconcile-first_error before after controller key src l1 l2 e logged w w' found alive on_before
        on_step on_update =
      rw found (
        ap (λ o. unless_deleted o (reconcile_alive client (before ++ controller ∷ after) src) w)
          alive
        ∙ reconcile_alive-first_error before after controller src l1 l2 e logged w w' on_before
            on_step on_update)

  -- A cluster that is gone or being deleted is left alone: nothing is called, and no error returned.
  pub reconcile-absent :
      (controllers : List (ClusterSubController W)) (key : Key) (w : W)
      → ((e : Error) × (client.get_cluster key w ≡ err e) × (is_not_found e ≡ true))
        ⊎ ((src : StarRocksCluster) × (time : ℤ) × (client.get_cluster key w ≡ ok src)
            × (src.meta.deletion_timestamp ≡ some time))
      → reconcile client controllers key w ≡ (ok tt, w)
  unfolding reconcile reconcile_cluster
  reconcile-absent controllers key w (inl (e, found, gone)) = rw (found, gone) refl
  reconcile-absent controllers key w (inr (src, time, found, deleted)) = rw (found, deleted) refl
