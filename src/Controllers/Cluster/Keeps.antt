-- ===== src/Controllers/Cluster/Keeps.antt =====
-- Operations that leave the metadata and the specification of the cluster at hand:
-- pkg/controllers/starrockscluster_controller.go.
use starrocks_kubernetes_ope.Base.{Result, ok, err, panic, ◌≡◌, ◌∙◌}
use starrocks_kubernetes_ope.Base.Results.Stateful.{M, and_then}
use starrocks_kubernetes_ope.Api.{StarRocksCluster}
use starrocks_kubernetes_ope.Controllers.Cluster.{Local}

-- The metadata and the specification of the cluster at hand are those of another.
abbrev pub Same : StarRocksCluster → StarRocksCluster → Type 0
Same src src' = (src'.meta ≡ src.meta) × (src'.spec ≡ src.spec)

Same-trans : (a b d : StarRocksCluster) → Same a b → Same b d → Same a d
Same-trans a b d p q = (q.0 ∙ p.0, q.1 ∙ p.1)

-- An operation that never writes to them, whether it succeeds or fails.
abbrev pub Keeps : {W A : Type 0} → M (Local W) A → Type 0
Keeps {W = W} m = (l : Local W) → Same l.src (m l).1.src

module _ {W : Type 0} where
  pub and_then-Same :
      {A B : Type 0} (l : Local W) (x : Result A × Local W) (f : A → M (Local W) B)
      → Same l.src x.1.src
      → ((a : A) → Keeps (f a))
      → Same l.src (and_then x f).1.src
  and_then-Same l (ok a, l') f same keeps = Same-trans l.src l'.src (f a l').1.src same (keeps a l')
  and_then-Same l (err e, l') f same keeps = same
  and_then-Same l (panic p, l') f same keeps = same
