-- ===== src/Subcontrollers/Fe/Checks/Laws.antt =====
-- What CheckFEFullyRolledOut asks of the stateful set of the FE: pkg/subcontrollers/fe.
use starrocks_kubernetes_ope.Base.{ℤ, Option, none, some, true, false, ◌≡◌, ◌↔◌, arith}
use starrocks_kubernetes_ope.Kube.{StatefulSet}
use starrocks_kubernetes_ope.Templates.Rollout.Laws.{HasReached}
use starrocks_kubernetes_ope.Subcontrollers.Fe.Checks.{is_fully_rolled_out, is_short_of}
use text.Mathlib.TextEquality.{eq_iff}

is_short_of_iff :
    (ready : ℤ) (wanted : Option ℤ) → (is_short_of ready wanted ≡ false) ↔ HasReached ready wanted
unfolding is_short_of
is_short_of_iff ready none = ground arith
is_short_of_iff ready (some n) = ground arith

-- CheckFEFullyRolledOut accepts the stateful set of the FE exactly where at least the wanted
-- replicas are ready, any number where none is wanted, and its update revision is its current one.
pub is_fully_rolled_out_iff :
    (sts : StatefulSet)
    → (is_fully_rolled_out sts ≡ true) ↔ (
        HasReached sts.status.ready_replicas sts.spec.replicas
        × (sts.status.update_revision ≡ sts.status.current_revision))
unfolding is_fully_rolled_out
is_fully_rolled_out_iff sts = ground (
  arith,
  is_short_of_iff sts.status.ready_replicas sts.spec.replicas,
  eq_iff sts.status.update_revision sts.status.current_revision,
)
