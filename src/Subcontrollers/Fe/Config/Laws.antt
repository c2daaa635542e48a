-- ===== src/Subcontrollers/Fe/Config/Laws.antt =====
-- When the BE and the CN may go on: the start of SyncCluster in pkg/subcontrollers/be/be_controller.go
-- and pkg/subcontrollers/cn/cn_controller.go.
use starrocks_kubernetes_ope.Base.{true, false, ◌≡◌, ◌↔◌, ◌⊎◌, arith}
use starrocks_kubernetes_ope.Kube.Client.{Client}
use starrocks_kubernetes_ope.Api.{StarRocksCluster}
use starrocks_kubernetes_ope.Subcontrollers.Fe.Checks.{check_fe_ready, check_fe_fully_rolled_out}
use starrocks_kubernetes_ope.Subcontrollers.Fe.Config.{may_go_on}

-- The FE is fully rolled out where the cluster asks to wait for that, else it is ready.
abbrev pub IsUp : (c : Client) → StarRocksCluster → c.World → Type 0
IsUp c src w =
    ((src.spec.wait_for_full_rollout ≡ true)
      × (check_fe_fully_rolled_out c src.meta.namespace src.meta.name w ≡ true))
    ⊎ ((src.spec.wait_for_full_rollout ≡ false)
        × (check_fe_ready c src.meta.namespace src.meta.name w ≡ true))

pub may_go_on_iff :
    (c : Client) (src : StarRocksCluster) (w : c.World) → (may_go_on c src w ≡ true) ↔ IsUp c src w
unfolding may_go_on
may_go_on_iff c src w = ground arith
