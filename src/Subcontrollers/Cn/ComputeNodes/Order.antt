-- ===== src/Subcontrollers/Cn/ComputeNodes/Order.antt =====
-- The order of the compute nodes: the end of QueryShowComputeNodes of
-- pkg/subcontrollers/cn/cn_mysql.go.
use mathlib.Core.List.{Mem, Perm, not-mem-nil, forall_mem-cons, mem-cons_self, mem-cons_of_mem}
use mathlib.Core.List.Perm
use starrocks_kubernetes_ope.Base.{
  String, ℤ, ◌≤ℤ◌, List, [], ◌∷◌, All, Result, ok, err, panic, ◌≡◌, ap, subst, Bool-cases, inl, inr,
  Result-cases,
}
use starrocks_kubernetes_ope.Subcontrollers.Cn.ComputeNodes.{
  Sql, SqlExecutor, ComputeNode, query_show_compute_nodes, read_rows, nodes_of, then_read, dsn,
}
use text.Mathlib.Text.{◌==◌}
use text.Mathlib.TextEquality.{eq_iff, IsScalar-prop}

-- Every element comes before those with a greater key only.
abbrev pub IsSortedBy : {A : Type 0} → (A → ℤ) → List A → Type 0
IsSortedBy key [] = Unit
IsSortedBy key (a ∷ as') = All (λ b. key a ≤ℤ key b) as' × IsSortedBy key as'

-- What sort.Slice promises: the slice has the same elements after it, in the order of their keys.
pub record Sorts {W : Type 0} (sql : Sql W ComputeNode) : Type 0 where
  pub sorted :
      (key : ComputeNode → ℤ) (nodes : List ComputeNode)
      → IsSortedBy key (sql.sort_by_index key nodes)
  pub permuted :
      (key : ComputeNode → ℤ) (nodes : List ComputeNode) → Perm (sql.sort_by_index key nodes) nodes

All-of_Mem : {A : Type 0} {P : A → Type 0} (l : List A) → ((a : A) → Mem a l → P a) → All P l
All-of_Mem [] each = tt
All-of_Mem (a ∷ l) each = (each a mem-cons_self, All-of_Mem l (λ b m. each b (mem-cons_of_mem a m)))

module _ {W : Type 0} (sql : Sql W ComputeNode) where
  -- The nodes that are kept for a warehouse are its own.
  nodes_of-warehouse :
      (warehouse : String) (nodes : List ComputeNode) (n : ComputeNode)
      → Mem n (nodes_of sql warehouse nodes)
      → n.warehouse_name ≡ warehouse
  unfolding nodes_of
  nodes_of-warehouse warehouse [] = λ n m. absurd (not-mem-nil m)
  nodes_of-warehouse warehouse (node ∷ nodes) =
      elim (Bool-cases (node.warehouse_name == warehouse)) [
        | inl own ↦ rw own (
            (forall_mem-cons (λ n. hlevel IsScalar-prop)).1
              ((eq_iff node.warehouse_name warehouse).0 own, nodes_of-warehouse warehouse nodes))
        | inr other ↦ rw other (nodes_of-warehouse warehouse nodes)
      ]

  -- A list of the nodes of one warehouse, in the order of their index.
  abbrev pub AreNodesOf : (warehouse : String) → List ComputeNode → Type 0
  AreNodesOf warehouse nodes =
      IsSortedBy (λ n. n.index) nodes × All (λ n. n.warehouse_name ≡ warehouse) nodes

  module _ (sorts : Sorts sql) where
    sorted-AreNodesOf :
        (warehouse : String) (nodes : List ComputeNode)
        → AreNodesOf warehouse (sql.sort_by_index (λ n. n.index) (nodes_of sql warehouse nodes))
    sorted-AreNodesOf warehouse nodes =
        let own = nodes_of sql warehouse nodes in
        (
          sorts.sorted (λ n. n.index) own,
          All-of_Mem (sql.sort_by_index (λ n. n.index) own) (λ n m.
              nodes_of-warehouse warehouse nodes n
                ((Perm.mem_iff (sorts.permuted (λ n. n.index) own)).0 m)),
        )

    read-AreNodesOf :
        (warehouse : String) (r : Result (List ComputeNode)) (found : String → List ComputeNode)
        → then_read r (λ nodes.
          ok (λ warehouse. sql.sort_by_index (λ n. n.index) (nodes_of sql warehouse nodes)))
          ≡ ok found
        → AreNodesOf warehouse (found warehouse)
    read-AreNodesOf warehouse (ok nodes) found h =
        let same = ap (λ r. elim r [ ok f ↦ f warehouse | _ ↦ [] ]) h in
        subst (AreNodesOf warehouse) same (sorted-AreNodesOf warehouse nodes)
    read-AreNodesOf warehouse (err e) found h = cc h
    read-AreNodesOf warehouse (panic p) found h = cc h

    pub query_show_compute_nodes-AreNodesOf :
        (e : SqlExecutor) (w : W) (found : String → List ComputeNode)
        → query_show_compute_nodes sql e w ≡ ok found
        → (warehouse : String) → AreNodesOf warehouse (found warehouse)
    unfolding query_show_compute_nodes
    query_show_compute_nodes-AreNodesOf e w found h warehouse =
        elim (Result-cases (sql.query (dsn e) "SHOW COMPUTE NODES" w)) [
          | inl (rows, queried) ↦
              read-AreNodesOf warehouse (read_rows sql rows) found (rw queried at h)
          | inr (inl (f, failed)) ↦ cc (failed, h)
          | inr (inr (p, panicked)) ↦ cc (panicked, h)
        ]
