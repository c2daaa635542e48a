-- ===== src/Subcontrollers/Fe/Recovery/Laws.antt =====
-- The states of a disaster recovery: pkg/subcontrollers/fe/fe_disaster_recovery.go.
use starrocks_kubernetes_ope.Base.{
  String, ℤ, Option, none, some, List, [], ◌∷◌, Dict, Bool, true, false, Result, ok, err, panic,
  eqz_refl, eqz_iff, ◌⊎◌, ◌<ℤ◌, ◌≢◌, ◌≡◌, ◌↔◌, refl, arith, ap, subst, sym, ◌∙◌, any, ◌++◌,
  format_int,
}
use starrocks_kubernetes_ope.Kube.{StatefulSet, Container}
use starrocks_kubernetes_ope.Kube.Client.{Client}
use starrocks_kubernetes_ope.Api.{
  DisasterRecovery, DisasterRecoveryStatus, DrPhase, dr_todo, dr_doing, dr_done, dr_other,
  new_disaster_recovery_status, StarRocksCluster,
}
use starrocks_kubernetes_ope.Subcontrollers.Fe.Checks.{
  is_run_in_shared_data_mode, check_fe_ready_in_disaster_recovery, has_generation,
}
use text.Mathlib.Text.{◌==◌}
use text.Mathlib.TextPositions.{eq_refl}
use starrocks_kubernetes_ope.Subcontrollers.Fe.Recovery.{
  should_enter_disaster_recovery_mode, is_pending, is_phase_done, current_status, phase_step,
  Recovering, rewrite_statefulset, rewrite_first, with_containers, rewrite_container,
  enter_disaster_recovery_mode, snapshot_conf, rewritten,
}
use starrocks_kubernetes_ope.K8sutils.Config.Ports.{get_port, query_port}

-- The steps of a recovery's phase.
pub data DrStep : DrPhase → DrPhase → Type 0 where
  start : DrStep dr_todo dr_doing
  finish : DrStep dr_doing dr_done
  stay : {phase : DrPhase} → DrStep phase phase

abbrev Stepped : DisasterRecoveryStatus → Result (Unit {0}) × Recovering → Type 0
Stepped before result =
    DrStep before.phase result.1.status.phase
    × (result.1.status.observed_generation ≡ before.observed_generation)

step_from : {p q r : DrPhase} → p ≡ q → DrStep q r → DrStep p r
step_from {r = r} e step = subst (λ x. DrStep x r) (sym e) step

rewritten-Stepped :
    (o : Result StatefulSet) (next : DisasterRecoveryStatus) (before : Recovering)
    → DrStep before.status.phase next.phase
    → next.observed_generation ≡ before.status.observed_generation
    → Stepped before.status (rewritten o next before)
rewritten-Stepped (ok sts) next before step same = (step, same)
rewritten-Stepped (err e) next before step same = (stay, refl)
rewritten-Stepped (panic p) next before step same = (stay, refl)

phase_step-Stepped :
    (phase : DrPhase) (generation port now : ℤ) (has_conf is_ready : Bool) (r : Recovering)
    → r.status.phase ≡ phase
    → Stepped r.status (phase_step phase generation port now has_conf is_ready r)
unfolding phase_step
phase_step-Stepped dr_todo generation port now false is_ready r e = (step_from e stay, refl)
phase_step-Stepped dr_todo generation port now true is_ready r e =
    rewritten-Stepped (rewrite_statefulset generation port r.sts) _ r (step_from e start) refl
phase_step-Stepped dr_doing generation port now has_conf false r e =
    rewritten-Stepped (rewrite_statefulset generation port r.sts) _ r stay refl
phase_step-Stepped dr_doing generation port now has_conf true r e =
    rewritten-Stepped (rewrite_statefulset generation port r.sts) _ r (step_from e finish) refl
phase_step-Stepped dr_done generation port now has_conf is_ready r e = (stay, refl)
phase_step-Stepped (dr_other text) generation port now has_conf is_ready r e = (stay, refl)

current_status-observed :
    (spec : DisasterRecovery) (status : Option DisasterRecoveryStatus) (now : ℤ)
    → is_pending spec status ≡ true
    → (current_status spec status now).observed_generation ≡ spec.generation
unfolding current_status is_pending new_disaster_recovery_status
current_status-observed spec none now pending = refl
current_status-observed spec (some status) now pending =
    ground (arith, eqz_iff spec.generation status.observed_generation)

-- The status that is left carries the specification's generation where the mode was to be entered.
enter_disaster_recovery_mode-Stepped :
    (c : Client) (src : StarRocksCluster) (spec : DisasterRecovery) (sts : StatefulSet) (port : ℤ)
    (w : c.World)
    → is_pending spec src.status.disaster_recovery_status ≡ true
    → let result = enter_disaster_recovery_mode c src spec sts port w in
      DrStep
        (current_status spec src.status.disaster_recovery_status (c.now w)).phase
        result.1.status.phase
      × (result.1.status.observed_generation ≡ spec.generation)
unfolding enter_disaster_recovery_mode
enter_disaster_recovery_mode-Stepped c src spec sts port w pending =
    let status = current_status spec src.status.disaster_recovery_status (c.now w) in
    let (step, same) =
      phase_step-Stepped status.phase spec.generation port (c.now w)
        (snapshot_conf src.spec.fe_spec)
        (check_fe_ready_in_disaster_recovery c src.meta.namespace src.meta.name spec.generation w)
        (record { status = status; sts = sts }) refl in
    (
      step,
      same ∙ current_status-observed spec src.status.disaster_recovery_status (c.now w) pending,
    )

-- The status is missing, older than the specification, or of its generation and not done.
abbrev pub IsPending : DisasterRecovery → Option DisasterRecoveryStatus → Type 0
IsPending spec none = Unit {0}
IsPending spec (some status) =
    (status.observed_generation <ℤ spec.generation)
    ⊎ ((status.observed_generation ≡ spec.generation) × (status.phase ≢ dr_done))

is_phase_done_iff : (phase : DrPhase) → (is_phase_done phase ≡ true) ↔ (phase ≡ dr_done)
unfolding is_phase_done
is_phase_done_iff dr_todo = ground arith
is_phase_done_iff dr_doing = ground arith
is_phase_done_iff dr_done = ground arith
is_phase_done_iff (dr_other text) = ground arith

is_pending_iff :
    (spec : DisasterRecovery) (status : Option DisasterRecoveryStatus)
    → (is_pending spec status ≡ true) ↔ IsPending spec status
unfolding is_pending
is_pending_iff spec none = ground arith
is_pending_iff spec (some status) =
    ground
      (arith, is_phase_done_iff status.phase, eqz_iff spec.generation status.observed_generation)

-- Disaster recovery is entered exactly in shared-data mode, where it is enabled and the status is
-- missing, older than the specification, or of its generation and not done; and then with the
-- query port of the configuration.
pub should_enter_iff :
    (spec : DisasterRecovery) (status : Option DisasterRecoveryStatus) (config : Dict String)
    (port : ℤ)
    → (should_enter_disaster_recovery_mode (some spec) status config ≡ some port) ↔ (
        (is_run_in_shared_data_mode config ≡ true)
        × (spec.enabled ≡ true)
        × IsPending spec status
        × (get_port config query_port ≡ port))
unfolding should_enter_disaster_recovery_mode
should_enter_iff spec status config port = ground (arith, is_pending_iff spec status)

is_pending-done :
    (spec : DisasterRecovery) (status : DisasterRecoveryStatus)
    → status.phase ≡ dr_done
    → status.observed_generation ≡ spec.generation
    → is_pending spec (some status) ≡ false
unfolding is_pending is_phase_done
is_pending-done spec status done observed =
    rw (done, observed) (ground (arith, eqz_refl spec.generation))

any-append_right :
    {A : Type 0} (p : A → Bool) (xs ys : List A) → any p ys ≡ true → any p (xs ++ ys) ≡ true
any-append_right p [] ys h = h
any-append_right p (x ∷ xs) ys h = ground (arith, any-append_right p xs ys h)

-- The container that recovery writes into the template is one that CheckFEReadyInDisasterRecovery
-- recognises: whatever the container's variables were, it finds the generation among them.
pub rewrite_container-has_generation :
    (generation port : ℤ) (container : Container)
    → has_generation generation (rewrite_container generation port container).env ≡ true
unfolding has_generation rewrite_container
rewrite_container-has_generation generation port container =
    any-append_right (λ env. env.value == format_int generation) container.env _
      (ground (arith, eq_refl (format_int generation)))

rewrite_statefulset-ok :
    (generation port : ℤ) (sts : StatefulSet) {container : Container} {containers : List Container}
    → sts.spec.template.spec.containers ≡ container ∷ containers
    → (new : StatefulSet) × (rewrite_statefulset generation port sts ≡ ok new)
unfolding rewrite_statefulset rewrite_first
rewrite_statefulset-ok generation port sts {container = container} {containers = containers} e = (
  with_containers (rewrite_container generation port container ∷ containers) sts,
  ap (rewrite_first generation port sts) e,
)

module _ (generation port now : ℤ) (r : Recovering) (container : Container)
    (containers : List Container)
    (templated : r.sts.spec.template.spec.containers ≡ container ∷ containers) where
  phase_step-todo :
      (phase : DrPhase) (has_conf is_ready : Bool)
      → phase ≡ dr_todo
      → has_conf ≡ true
      → (phase_step phase generation port now has_conf is_ready r).1.status.phase ≡ dr_doing
  unfolding phase_step
  phase_step-todo phase has_conf is_ready todo conf =
      let (new, rewrites) = rewrite_statefulset-ok generation port r.sts templated in
      rw (todo, conf, rewrites) refl

  phase_step-doing :
      (phase : DrPhase) (has_conf is_ready : Bool)
      → phase ≡ dr_doing
      → is_ready ≡ true
      → (phase_step phase generation port now has_conf is_ready r).1.status.phase ≡ dr_done
  unfolding phase_step
  phase_step-doing phase has_conf is_ready doing ready =
      let (new, rewrites) = rewrite_statefulset-ok generation port r.sts templated in
      rw (doing, ready, rewrites) refl

-- The cluster with the status of a reconcile before.
pub resume : StarRocksCluster → DisasterRecoveryStatus → StarRocksCluster
resume src status = record src {
  status = record (src.status) { disaster_recovery_status = some status };
}

current_status-same :
    (spec : DisasterRecovery) (status : DisasterRecoveryStatus) (now : ℤ)
    → status.observed_generation ≡ spec.generation
    → current_status spec (some status) now ≡ status
unfolding current_status
current_status-same spec status now same = ground arith

not_entered_of_not_pending :
    (spec : DisasterRecovery) (status : Option DisasterRecoveryStatus) (config : Dict String)
    → is_pending spec status ≡ false
    → should_enter_disaster_recovery_mode (some spec) status config ≡ none
unfolding should_enter_disaster_recovery_mode
not_entered_of_not_pending spec status config settled = ground arith

module _ (c : Client) (src : StarRocksCluster) (spec : DisasterRecovery) (sts : StatefulSet)
    (port : ℤ) (w : c.World) (status : DisasterRecoveryStatus)
    (observed : status.observed_generation ≡ spec.generation) where
  abbrev resumed : DisasterRecoveryStatus
  resumed = (enter_disaster_recovery_mode c (resume src status) spec sts port w).1.status

  resumed-observed : resumed.observed_generation ≡ spec.generation
  unfolding enter_disaster_recovery_mode resume
  resumed-observed =
      (phase_step-Stepped (current_status spec (some status) (c.now w)).phase spec.generation port
        (c.now w) (snapshot_conf src.spec.fe_spec)
        (check_fe_ready_in_disaster_recovery c src.meta.namespace src.meta.name spec.generation w)
        (record { status = current_status spec (some status) (c.now w); sts = sts }) refl).1
      ∙ ap (λ s. s.observed_generation) (current_status-same spec status (c.now w) observed)
      ∙ observed

  resumed-done :
      {container : Container} {containers : List Container}
      → sts.spec.template.spec.containers ≡ container ∷ containers
      → status.phase ≡ dr_doing
      → check_fe_ready_in_disaster_recovery c src.meta.namespace src.meta.name spec.generation w
        ≡ true
      → resumed.phase ≡ dr_done
  unfolding enter_disaster_recovery_mode resume
  resumed-done {container = container} {containers = containers} templated doing ready =
      phase_step-doing spec.generation port (c.now w)
        (record { status = current_status spec (some status) (c.now w); sts = sts }) container
        containers templated _ (snapshot_conf src.spec.fe_spec) _
        (ap (λ s. s.phase) (current_status-same spec status (c.now w) observed) ∙ doing) ready

-- Disaster recovery comes to its end. Where it is due, at its start, and the snapshot's
-- configuration is mounted, the pods are being recovered after the first EnterDisasterRecoveryMode;
-- once they are ready, a second one, on the status that the first has left, is done, and the mode is
-- not entered again for this specification.
pub recovery_completes :
    (c : Client) (src : StarRocksCluster) (spec : DisasterRecovery) (sts : StatefulSet) (port : ℤ)
    (config : Dict String) (w w' : c.World) (container : Container) (containers : List Container)
    → sts.spec.template.spec.containers ≡ container ∷ containers
    → is_pending spec src.status.disaster_recovery_status ≡ true
    → (current_status spec src.status.disaster_recovery_status (c.now w)).phase ≡ dr_todo
    → snapshot_conf src.spec.fe_spec ≡ true
    → check_fe_ready_in_disaster_recovery c src.meta.namespace src.meta.name spec.generation w'
      ≡ true
    → let first = (enter_disaster_recovery_mode c src spec sts port w).1.status in
      let second = (enter_disaster_recovery_mode c (resume src first) spec sts port w').1.status in
      (first.phase ≡ dr_doing)
      × (second.phase ≡ dr_done)
      × (should_enter_disaster_recovery_mode (some spec) (some second) config ≡ none)
unfolding enter_disaster_recovery_mode resume
recovery_completes c src spec sts port config w w' container containers templated pending todo conf
      ready =
    let first = (enter_disaster_recovery_mode c src spec sts port w).1.status in
    let (step, observed) = enter_disaster_recovery_mode-Stepped c src spec sts port w pending in
    let doing =
      phase_step-todo spec.generation port (c.now w)
        (record {
          status = current_status spec src.status.disaster_recovery_status (c.now w);
          sts = sts;
        })
        container containers templated _ (snapshot_conf src.spec.fe_spec)
        (check_fe_ready_in_disaster_recovery c src.meta.namespace src.meta.name spec.generation w)
        todo conf in
    let done = resumed-done c src spec sts port w' first observed templated doing ready in
    (
      doing,
      done,
      not_entered_of_not_pending spec _ config
          (is_pending-done spec _ done (resumed-observed c src spec sts port w' first observed)),
    )
