-- ===== src/Subcontrollers/Fe/Recovery/Steps.antt =====
-- What one EnterDisasterRecoveryMode does to phase and set: pkg/subcontrollers/fe/fe_disaster_recovery.go.
use starrocks_kubernetes_ope.Base.{
  ℤ, Bool, true, false, Result, ok, err, panic, Error, ◌≢◌, ◌≡◌, refl, subst, sym,
}
use starrocks_kubernetes_ope.Kube.{StatefulSet}
use starrocks_kubernetes_ope.Kube.Client.{Client}
use starrocks_kubernetes_ope.Api.{
  DisasterRecovery, DisasterRecoveryStatus, DrPhase, dr_todo, dr_doing, dr_done, dr_other,
  StarRocksCluster,
}
use starrocks_kubernetes_ope.Subcontrollers.Fe.Checks.{check_fe_ready_in_disaster_recovery}
use starrocks_kubernetes_ope.Subcontrollers.Fe.Recovery.{
  current_status, phase_step, Recovering, rewrite_statefulset, enter_disaster_recovery_mode,
  snapshot_conf, rewritten,
}

-- The pods are the rewritten ones of the set before.
abbrev pub IsRewrite : (generation port : ℤ) → (before after : StatefulSet) → Type 0
IsRewrite generation port before after = rewrite_statefulset generation port before ≡ ok after

-- The steps of a recovery: the phase and the set to deploy before and after, and the answer. The
-- phase moves on only with the pods rewritten.
pub data RecoveryStep (generation port : ℤ) (has_conf is_ready : Bool)
    : DrPhase → StatefulSet → Result (Unit {0}) → DrPhase → StatefulSet → Type 0 where
  unmounted :
      {sts : StatefulSet} {e : Error}
      → has_conf ≡ false
      → RecoveryStep generation port has_conf is_ready dr_todo sts (err e) dr_todo sts
  started :
      {sts new : StatefulSet}
      → has_conf ≡ true
      → IsRewrite generation port sts new
      → RecoveryStep generation port has_conf is_ready dr_todo sts (ok tt) dr_doing new
  continued :
      {sts new : StatefulSet}
      → is_ready ≡ false
      → IsRewrite generation port sts new
      → RecoveryStep generation port has_conf is_ready dr_doing sts (ok tt) dr_doing new
  finished :
      {sts new : StatefulSet}
      → is_ready ≡ true
      → IsRewrite generation port sts new
      → RecoveryStep generation port has_conf is_ready dr_doing sts (ok tt) dr_done new
  not_rewritten :
      {phase : DrPhase} {sts : StatefulSet} {answer : Result (Unit {0})}
      → ((new : StatefulSet) → ¬ IsRewrite generation port sts new)
      → answer ≢ ok tt
      → RecoveryStep generation port has_conf is_ready phase sts answer phase sts
  idle :
      {phase : DrPhase} {sts : StatefulSet}
      → phase ≢ dr_todo
      → phase ≢ dr_doing
      → RecoveryStep generation port has_conf is_ready phase sts (ok tt) phase sts

rewritten-RecoveryStep :
    (generation port : ℤ) (has_conf is_ready : Bool) (o : Result StatefulSet)
    (next : DisasterRecoveryStatus) (before : Recovering)
    → rewrite_statefulset generation port before.sts ≡ o
    → ((new : StatefulSet)
        → IsRewrite generation port before.sts new
        → RecoveryStep generation port has_conf is_ready before.status.phase before.sts
            (ok tt)
            next.phase
            new)
    → let result = rewritten o next before in
      RecoveryStep generation port has_conf is_ready before.status.phase before.sts result.0
        result.1.status.phase result.1.sts
rewritten-RecoveryStep generation port has_conf is_ready (ok sts) next before same step =
    step sts same
rewritten-RecoveryStep generation port has_conf is_ready (err e) next before same step =
    not_rewritten (λ new made. cc) (λ h. cc h)
rewritten-RecoveryStep generation port has_conf is_ready (panic p) next before same step =
    not_rewritten (λ new made. cc) (λ h. cc h)

-- Under a phase that the status has.
at_phase :
    (generation port : ℤ) (has_conf is_ready : Bool) {p q next : DrPhase} {sts new : StatefulSet}
    {answer : Result (Unit {0})}
    → p ≡ q
    → RecoveryStep generation port has_conf is_ready q sts answer next new
    → RecoveryStep generation port has_conf is_ready p sts answer next new
at_phase generation port has_conf is_ready {next = next} {sts = sts} {new = new} {answer = answer} e
      step =
    subst (λ x. RecoveryStep generation port has_conf is_ready x sts answer next new) (sym e) step

phase_step-RecoveryStep :
    (phase : DrPhase) (generation port now : ℤ) (has_conf is_ready : Bool) (r : Recovering)
    → r.status.phase ≡ phase
    → let result = phase_step phase generation port now has_conf is_ready r in
      RecoveryStep generation port has_conf is_ready r.status.phase r.sts result.0
        result.1.status.phase result.1.sts
unfolding phase_step
phase_step-RecoveryStep dr_todo generation port now false is_ready r e =
    at_phase generation port false is_ready e (unmounted refl)
phase_step-RecoveryStep dr_todo generation port now true is_ready r e =
    rewritten-RecoveryStep generation port true is_ready _ _ r refl
      (λ new made. at_phase generation port true is_ready e (started refl made))
phase_step-RecoveryStep dr_doing generation port now has_conf false r e =
    rewritten-RecoveryStep generation port has_conf false _ _ r refl (λ new made.
      at_phase generation port has_conf false e (
        subst (λ x. RecoveryStep generation port has_conf false dr_doing r.sts (ok tt) x new)
          (sym e) (continued refl made)))
phase_step-RecoveryStep dr_doing generation port now has_conf true r e =
    rewritten-RecoveryStep generation port has_conf true _ _ r refl
      (λ new made. at_phase generation port has_conf true e (finished refl made))
phase_step-RecoveryStep dr_done generation port now has_conf is_ready r e =
    idle (λ todo. cc) (λ doing. cc)
phase_step-RecoveryStep (dr_other text) generation port now has_conf is_ready r e =
    idle (λ todo. cc) (λ doing. cc)

-- Every EnterDisasterRecoveryMode is one step from the status that it takes up: from todo, without
-- the mounted snapshot configuration it fails, else it goes to doing; from doing it goes to done
-- where the pods have recovered, and else stays; each of these with the set to deploy rewritten. A
-- set that cannot be rewritten, without success, and any other phase leave the phase and the set as
-- they are.
pub enter_disaster_recovery_mode-RecoveryStep :
    (c : Client) (src : StarRocksCluster) (spec : DisasterRecovery) (sts : StatefulSet) (port : ℤ)
    (w : c.World)
    → let result = enter_disaster_recovery_mode c src spec sts port w in
      RecoveryStep spec.generation port
        (snapshot_conf src.spec.fe_spec)
        (check_fe_ready_in_disaster_recovery c src.meta.namespace src.meta.name spec.generation w)
        (current_status spec src.status.disaster_recovery_status (c.now w)).phase
        sts
        result.0
        result.1.status.phase
        result.1.sts
unfolding enter_disaster_recovery_mode
enter_disaster_recovery_mode-RecoveryStep c src spec sts port w =
    let status = current_status spec src.status.disaster_recovery_status (c.now w) in
    phase_step-RecoveryStep status.phase spec.generation port (c.now w)
      (snapshot_conf src.spec.fe_spec)
      (check_fe_ready_in_disaster_recovery c src.meta.namespace src.meta.name spec.generation w)
      (record { status = status; sts = sts }) refl
