-- ===== src/Templates/Probes.antt =====
-- Probes: pkg/k8sutils/templates/pod/probe.go, and PortReadyProbe of
-- pkg/subcontrollers/fe/fe_disaster_recovery.go. The sum wraps around as int32 ones do, and the
-- division is Go's, towards 0.
pub mod Laws
use starrocks_kubernetes_ope.Base.{
  String, ℕ, ℤ, pos, Option, none, some, eqz, wrap32, quot, ◌+ℤ◌, ◌-ℤ◌, if◌then◌else◌,
}
use starrocks_kubernetes_ope.Kube.{Probe, ProbeHandler, http_get, tcp_socket}

pub make_probe : (period : ℤ) → ProbeHandler → (threshold : ℤ) → Probe
make_probe period handler threshold = record {
  handler = handler;
  initial_delay_seconds = pos 0;
  timeout_seconds = pos 0;
  period_seconds = period;
  success_threshold = pos 0;
  failure_threshold = threshold;
}

-- completeProbe; the period is one of the program's constants
unfoldable pub complete_probe :
    (failure_seconds : Option ℤ) (threshold : ℤ) (period : ℕ) → ProbeHandler → Option Probe
unfolding wrap32 quot make_probe
complete_probe none threshold period handler = some (make_probe (pos period) handler threshold)
complete_probe (some seconds) threshold period handler =
    if eqz seconds (pos 0)
    then none
    else some (
        make_probe (pos period) handler
          (quot (wrap32 (wrap32 (seconds +ℤ pos period) -ℤ pos 1)) period))

-- StartupProbe
unfoldable pub startup_probe : Option ℤ → (port : ℤ) (path : String) → Option Probe
unfolding complete_probe
startup_probe seconds port path = complete_probe seconds (pos 60) 5 (http_get path port)

-- LivenessProbe
unfoldable pub liveness_probe : Option ℤ → (port : ℤ) (path : String) → Option Probe
unfolding complete_probe
liveness_probe seconds port path = complete_probe seconds (pos 3) 5 (http_get path port)

-- ReadinessProbe
unfoldable pub readiness_probe : Option ℤ → (port : ℤ) (path : String) → Option Probe
unfolding complete_probe
readiness_probe seconds port path = complete_probe seconds (pos 3) 5 (http_get path port)

-- PortReadyProbe
abbrev pub port_ready_probe : ℤ → Probe
port_ready_probe port = record {
  handler = tcp_socket port;
  initial_delay_seconds = pos 5;
  timeout_seconds = pos 1;
  period_seconds = pos 10;
  success_threshold = pos 1;
  failure_threshold = pos 3;
}
