-- ===== src/Templates/Probes/Laws.antt =====
-- How long a probe waits: pkg/k8sutils/templates/pod/probe.go.
use starrocks_kubernetes_ope.Base.{
  ℕ, ℤ, pos, some, wrap32, quot, ◌≡◌, refl, arith, ◌≤◌, ◌+◌, ◌*◌, ◌^◌, ◌/◌, ◌-◌, ◌+ℤ◌, ◌-ℤ◌,
  wrap32_of_IsInt32, ◌<◌,
}
use starrocks_kubernetes_ope.Kube.{ProbeHandler}
use starrocks_kubernetes_ope.Templates.Probes.{complete_probe, make_probe}

add-pos : (a b : ℕ) → pos a +ℤ pos b ≡ pos (a + b)
unfolding ◌+ℤ◌
add-pos a b = ground arith

sub-pos : (a b : ℕ) → b ≤ a → pos a -ℤ pos b ≡ pos (a - b)
unfolding ◌-ℤ◌
sub-pos a b h = ground arith

-- The number of periods of a probe that is given a number of seconds that fits.
periods-pos :
    (seconds : ℕ)
    → 0 < seconds
    → seconds + 5 < 2 ^ 31
    → quot (wrap32 (wrap32 (pos seconds +ℤ pos 5) -ℤ pos 1)) 5 ≡ pos ((seconds + 5 - 1) / 5)
unfolding quot wrap32
periods-pos seconds positive small =
    rw
      (
        add-pos seconds 5,
        wrap32_of_IsInt32 (pos (seconds + 5)) (omega arith),
        sub-pos (seconds + 5) 1 (omega arith),
        wrap32_of_IsInt32 (pos (seconds + 5 - 1)) (omega arith),
      )
      refl

-- For a number of seconds from 1 that leaves room for the period in an int32, the probe fails after
-- the least number of periods that last as long.
pub complete_probe-IsLeast :
    (seconds : ℕ) (threshold : ℤ) (handler : ProbeHandler)
    → 0 < seconds
    → seconds + 5 < 2 ^ 31
    → (n : ℕ) × (complete_probe (some (pos seconds)) threshold 5 handler
        ≡ some (make_probe (pos 5) handler (pos n)))
      × (seconds ≤ n * 5)
      × (n * 5 < seconds + 5)
unfolding complete_probe wrap32 quot
complete_probe-IsLeast seconds threshold handler positive small = (
  (seconds + 5 - 1) / 5,
  ground (arith, periods-pos seconds positive small),
  omega arith,
  omega arith,
)
