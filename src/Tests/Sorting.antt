-- ===== src/Tests/Sorting.antt =====
-- A sort of the compute nodes that keeps what sort.Slice promises.
use mathlib.Core.List.{Perm}
use mathlib.Core.List.Perm
use starrocks_kubernetes_ope.Base.{
  ℤ, ltz, ◌≤ℤ◌, List, [], ◌∷◌, All, if◌then◌else◌, Bool-cases, inl, inr, arith,
}
use starrocks_kubernetes_ope.Subcontrollers.Cn.ComputeNodes.{ComputeNode}
use starrocks_kubernetes_ope.Subcontrollers.Cn.ComputeNodes.Order.{IsSortedBy}

module _ {A : Type 0} where
  module _ (key : A → ℤ) where
    put_in : A → List A → List A
    put_in a [] = a ∷ []
    put_in a (b ∷ bs) =
        let later = put_in a bs in if ltz (key b) (key a) then b ∷ later else a ∷ b ∷ bs

    put_in-perm : (a : A) (bs : List A) → Perm (put_in a bs) (a ∷ bs)
    unfolding put_in
    put_in-perm a [] = Perm.rfl
    put_in-perm a (b ∷ bs) = elim (Bool-cases (ltz (key b) (key a))) [
      | inr first ↦ rw first Perm.rfl
      | inl later ↦ rw later (Perm.trans (Perm.cons b (put_in-perm a bs)) (Perm.swap a b bs))
    ]

    put_in-All : (P : A → Type 0) (a : A) (bs : List A) → P a → All P bs → All P (put_in a bs)
    unfolding put_in
    put_in-All P a [] pa rest = (pa, rest)
    put_in-All P a (b ∷ bs) pa (pb, rest) = elim (Bool-cases (ltz (key b) (key a))) [
      | inr first ↦ rw first (pa, (pb, rest))
      | inl later ↦ rw later (pb, put_in-All P a bs pa rest)
    ]

    All-below :
        (a b : A) (bs : List A)
        → key a ≤ℤ key b
        → All (λ d. key b ≤ℤ key d) bs
        → All (λ d. key a ≤ℤ key d) bs
    All-below a b [] le rest = tt
    All-below a b (d ∷ bs) le (h, rest) = (omega arith, All-below a b bs le rest)

    put_in-IsSortedBy : (a : A) (bs : List A) → IsSortedBy key bs → IsSortedBy key (put_in a bs)
    unfolding put_in
    put_in-IsSortedBy a [] sorted = (tt, tt)
    put_in-IsSortedBy a (b ∷ bs) (below, sorted) = elim (Bool-cases (ltz (key b) (key a))) [
      | inr first ↦
          let le : key a ≤ℤ key b = ground arith in
          rw first ((le, All-below a b bs le below), (below, sorted))
      | inl later ↦
          let le : key b ≤ℤ key a = ground arith in
          rw later (put_in-All (λ d. key b ≤ℤ key d) a bs le below, put_in-IsSortedBy a bs sorted)
    ]

unfoldable pub sort_nodes : (ComputeNode → ℤ) → List ComputeNode → List ComputeNode
unfolding put_in
sort_nodes key [] = []
sort_nodes key (n ∷ nodes) = put_in key n (sort_nodes key nodes)

pub sort_nodes-IsSortedBy :
    (key : ComputeNode → ℤ) (nodes : List ComputeNode) → IsSortedBy key (sort_nodes key nodes)
unfolding sort_nodes
sort_nodes-IsSortedBy key [] = tt
sort_nodes-IsSortedBy key (n ∷ nodes) =
    put_in-IsSortedBy key n (sort_nodes key nodes) (sort_nodes-IsSortedBy key nodes)

pub sort_nodes-perm :
    (key : ComputeNode → ℤ) (nodes : List ComputeNode) → Perm (sort_nodes key nodes) nodes
unfolding sort_nodes
sort_nodes-perm key [] = Perm.rfl
sort_nodes-perm key (n ∷ nodes) =
    Perm.trans (put_in-perm key n (sort_nodes key nodes)) (Perm.cons n (sort_nodes-perm key nodes))
