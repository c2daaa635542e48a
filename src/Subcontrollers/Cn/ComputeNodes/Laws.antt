-- ===== src/Subcontrollers/Cn/ComputeNodes/Laws.antt =====
-- Which compute nodes are dropped: pkg/subcontrollers/cn/cn_controller.go and cn_mysql.go.
use starrocks_kubernetes_ope.Base.{
  String, ℕ, pos, List, [], ◌∷◌, ◌++◌, length, drop, true, false, Result, ok, err, panic, or_else,
  eqz_iff, ◌≡◌, ◌≢◌, ◌↔◌, ◌⊎◌, inl, inr, refl, arith, ap, sym, ◌∙◌, All, Result-cases,
}
use mathlib.Core.List.{append-nil, append_assoc}
use starrocks_kubernetes_ope.Base.Results.Stateful.{M, and_then, err-ne-ok, panic-ne-ok}
use starrocks_kubernetes_ope.Kube.{StatefulSet, Pod}
use starrocks_kubernetes_ope.Kube.Client.{Client, Settings}
use starrocks_kubernetes_ope.K8sutils.Equality.{statefulset_deep_equal}
use starrocks_kubernetes_ope.Templates.Names.{StarRocksObject, cn_statefulset_name}
use starrocks_kubernetes_ope.Subcontrollers.Cn.ComputeNodes.{
  Sql, SqlExecutor, ComputeNode, drop_nodes, drop_statement, execute_drop_compute_node,
  check_settled, check_revisions, sync_compute_nodes_in_fe, drop_surplus, new_sql_executor,
  query_show_compute_nodes, dsn, fe_warehouse, is_old,
}
use starrocks_kubernetes_ope.Subcontrollers.Cn.ComputeNodes.Order.{
  Sorts, AreNodesOf, query_show_compute_nodes-AreNodesOf,
}

-- A record of the statements that the FE has executed.
pub record Ledger {W : Type 0} (sql : Sql W ComputeNode) : Type 0 where
  pub statements : W → List String
  pub exec-statements :
      (dsn statement : String) (w w' : W)
      → sql.exec dsn statement w ≡ (ok tt, w')
      → statements w' ≡ statements w ++ statement ∷ []

-- The statements that drop the nodes of a list, those of the last node first.
pub drop_statements : {W : Type 0} → Sql W ComputeNode → List ComputeNode → List String
drop_statements sql [] = []
drop_statements sql (node ∷ nodes) = drop_statements sql nodes ++ drop_statement sql node ∷ []

-- What comes before a call that succeeded has succeeded too.
and_then-ok :
    {S : Type 0} (r : Result (Unit {0}) × S) (k : M S (Unit {0})) {s' : S}
    → and_then r (λ _. k) ≡ (ok tt, s')
    → (s : S) × (r ≡ (ok tt, s)) × (k s ≡ (ok tt, s'))
and_then-ok (ok tt, s) k h = (s, refl, h)
and_then-ok (err e, s) k h = absurd (err-ne-ok h)
and_then-ok (panic p, s) k h = absurd (panic-ne-ok h)

module _ {W : Type 0} (sql : Sql W ComputeNode) (ledger : Ledger sql) where
  drop_nodes-statements :
      (e : SqlExecutor) (nodes : List ComputeNode) (w : W) {w' : W}
      → drop_nodes sql e nodes w ≡ (ok tt, w')
      → ledger.statements w' ≡ ledger.statements w ++ drop_statements sql nodes
  unfolding drop_nodes execute_drop_compute_node drop_statements
  drop_nodes-statements e [] w h =
      ap (λ r. ledger.statements r.1) (sym h) ∙ sym (append-nil (ledger.statements w))
  drop_nodes-statements e (node ∷ nodes) w {w' = w'} h =
      let (s, before, last) =
        and_then-ok (drop_nodes sql e nodes w) (execute_drop_compute_node sql e node) h in
      ledger.exec-statements (dsn e) (drop_statement sql node) s w' last
      ∙ ap (λ done. done ++ drop_statement sql node ∷ []) (drop_nodes-statements e nodes w before)
      ∙ append_assoc (ledger.statements w) (drop_statements sql nodes)
          (drop_statement sql node ∷ [])

check_revisions_iff :
    (revision : String) (pods : List Pod)
    → (check_revisions revision pods ≡ ok tt) ↔ All (λ pod. is_old revision pod ≡ false) pods
unfolding check_revisions
check_revisions_iff revision [] = ground arith
check_revisions_iff revision (pod ∷ pods) = ground (arith, check_revisions_iff revision pods)

-- The comparisons agree exactly where the two sets want the same number of replicas, 1 where none
-- is given, the hash of the expected set is that of the actual one, there are as many pods, and
-- every pod is of the update revision.
pub check_settled_iff :
    (c : Client) (settings : Settings) (sql : Sql c.World ComputeNode) (expect actual : StatefulSet)
    (pods : List Pod) (replicas : ℕ)
    → (check_settled c settings sql expect actual pods ≡ ok replicas) ↔ (
        (or_else expect.spec.replicas (pos 1) ≡ pos replicas)
        × (or_else actual.spec.replicas (pos 1) ≡ pos replicas)
        × ((statefulset_deep_equal c expect actual).1 ≡ true)
        × (length pods ≡ replicas)
        × All (λ pod. is_old actual.status.update_revision pod ≡ false) pods)
unfolding check_settled
check_settled_iff c settings sql expect actual pods replicas = ground (
  arith,
  check_revisions_iff actual.status.update_revision pods,
  eqz_iff (or_else expect.spec.replicas (pos 1)) (or_else actual.spec.replicas (pos 1)),
  eqz_iff (pos (length pods)) (or_else expect.spec.replicas (pos 1)),
)

-- The expected and the actual set agree: both want this number of replicas, 1 where none is given,
-- their hashes are the same, there are as many pods, and every pod is of the update revision.
abbrev pub IsSettled : Client → (expect actual : StatefulSet) → List Pod → (replicas : ℕ) → Type 0
IsSettled c expect actual pods replicas =
    (or_else expect.spec.replicas (pos 1) ≡ pos replicas)
    × (or_else actual.spec.replicas (pos 1) ≡ pos replicas)
    × ((statefulset_deep_equal c expect actual).1 ≡ true)
    × (length pods ≡ replicas)
    × All (λ pod. is_old actual.status.update_revision pod ≡ false) pods

module _ (c : Client) (settings : Settings) (sql : Sql c.World ComputeNode) where
  -- Where the expected and the actual set agree and the executor and the nodes can be read, a
  -- SyncComputeNodesInFE that succeeds has dropped the nodes of its warehouse from the wanted number
  -- on, the last one first, and executed nothing else. The nodes it counts are all of that warehouse
  -- and in the order of their index, so that the ones dropped have the greatest indices.
  pub sync_compute_nodes_in_fe-statements :
      (ledger : Ledger sql)
      → Sorts sql
      → (object : StarRocksObject) (expect actual : StatefulSet) (pods : List Pod) (w w' : c.World)
        (replicas : ℕ) (executor : SqlExecutor) (nodes : String → List ComputeNode)
      → check_settled c settings sql expect actual pods ≡ ok replicas
      → new_sql_executor c settings w object.meta.namespace (cn_statefulset_name object)
        ≡ ok executor
      → query_show_compute_nodes sql executor w ≡ ok nodes
      → sync_compute_nodes_in_fe c settings sql object expect actual pods w ≡ (ok tt, w')
      → let warehouse = fe_warehouse c settings sql object in
        AreNodesOf sql warehouse (nodes warehouse)
        × (ledger.statements w'
            ≡ ledger.statements w ++ drop_statements sql (drop replicas (nodes warehouse)))
  unfolding sync_compute_nodes_in_fe drop_surplus
  sync_compute_nodes_in_fe-statements ledger sorts object expect actual pods w w' replicas executor
        nodes settled connected queried h =
      (
        query_show_compute_nodes-AreNodesOf sql sorts executor w nodes queried
            (fe_warehouse c settings sql object),
        drop_nodes-statements sql ledger executor
            (drop replicas (nodes (fe_warehouse c settings sql object))) w
            (rw (settled, connected, queried) at h),
      )

  -- Where the expected and the actual set agree, SyncComputeNodesInFE goes on to ask the FE for its
  -- nodes, with the number of replicas that they agree on. Else it executes no statement: it fails,
  -- and leaves the world as it is.
  pub sync_compute_nodes_in_fe-IsSettled :
      (object : StarRocksObject) (expect actual : StatefulSet) (pods : List Pod) (w : c.World)
      → let call = sync_compute_nodes_in_fe c settings sql object expect actual pods w in
        ((replicas : ℕ) × IsSettled c expect actual pods replicas
          × (call ≡ drop_surplus c settings sql object replicas w))
        ⊎ ((¬ ((replicas : ℕ) × IsSettled c expect actual pods replicas))
            × (r : Result (Unit {0})) × (call ≡ (r, w))
            × (r ≢ ok tt))
  unfolding sync_compute_nodes_in_fe
  sync_compute_nodes_in_fe-IsSettled object expect actual pods w =
      let settles =
        λ (replicas : ℕ). check_settled_iff c settings sql expect actual pods replicas in
      elim (Result-cases (check_settled c settings sql expect actual pods)) [
        | inl (replicas, settled) ↦ inl (replicas, (settles replicas).0 settled, rw settled refl)
        | inr (inl (e, failed)) ↦
            inr ((λ s. cc ((settles s.0).1 s.1, failed)), err e, rw failed refl, λ h. cc h)
        | inr (inr (p, panicked)) ↦
            inr ((λ s. cc ((settles s.0).1 s.1, panicked)), panic p, rw panicked refl, λ h. cc h)
      ]
