-- ===== src/K8sutils/Merge/Laws.antt =====
-- What a merge keeps: pkg/common/resource_utils/metadata.go.
use starrocks_kubernetes_ope.Base.{
  String, List, [], ◌∷◌, ◌++◌, Dict, lookup, first_of_two, lookup-insert_all, true, false, ◌≡◌,
  refl, arith, ap, ◌||◌, has_prefix,
}
use starrocks_kubernetes_ope.K8sutils.Merge.{
  merge_slices, absent_from, merge_maps, merge_maps_by_prefix, with_prefix, contains_text,
}
use mathlib.Core.List.{append-nil}
use text.Mathlib.Text.{◌==◌}
use text.Mathlib.TextEquality.{eq_iff}

any-append :
    (s : String) (xs ys : List String)
    → contains_text s (xs ++ ys) ≡ (contains_text s xs || contains_text s ys)
any-append s [] ys = refl
any-append s (x ∷ xs) ys = ground (arith, any-append s xs ys)

same_text :
    (t s : String) (new : List String) → t == s ≡ true → contains_text t new ≡ contains_text s new
same_text t s new e = ap (λ u. contains_text u new) ((eq_iff t s).0 e)

contains-absent_from :
    (s : String) (new old : List String)
    → contains_text s new ≡ false
    → contains_text s (absent_from new old) ≡ contains_text s old
unfolding absent_from
contains-absent_from s new [] h = refl
contains-absent_from s new (t ∷ old) h =
    ground (arith, contains-absent_from s new old h, same_text t s new)

absent_from-nil :
    (s : String) (new : List String) → contains_text s new ≡ true → absent_from new (s ∷ []) ≡ []
unfolding absent_from
absent_from-nil s new h = ground arith

-- A merge of two slices holds what stands in either, and nothing else.
pub contains-merge_slices :
    (s : String) (new old : List String)
    → contains_text s (merge_slices new old) ≡ (contains_text s new || contains_text s old)
unfolding merge_slices
contains-merge_slices s new old =
    ground (arith, any-append s new (absent_from new old), contains-absent_from s new old)

-- A second merge with the same single name, which every reconcile repeats, appends nothing.
pub merge_slices_twice :
    (s : String) (names : List String)
    → merge_slices (merge_slices names (s ∷ [])) (s ∷ []) ≡ merge_slices names (s ∷ [])
unfolding merge_slices
merge_slices_twice s names =
    let merged = names ++ absent_from names (s ∷ []) in
    rw
      (absent_from-nil s merged
        (ground (arith, contains-merge_slices s names (s ∷ []), eq_iff s s)))
      (append-nil merged)

has_prefix-nil : (s : String) → has_prefix s "" ≡ true
unfolding has_prefix
has_prefix-nil String.[] = refl
has_prefix-nil (String.◌∷◌ c s) = refl

with_prefix-nil : (m : Dict String) → with_prefix "" m ≡ m
unfolding with_prefix
with_prefix-nil [] = refl
with_prefix-nil ((k, v) ∷ m) = ground (arith, has_prefix-nil k, with_prefix-nil m)

-- In a merge of two maps a key of the new one wins, and every other key keeps its old value.
pub lookup-merge_maps :
    (key : String) (new old : Dict String)
    → lookup key (merge_maps new old) ≡ first_of_two (lookup key new) (lookup key old)
unfolding merge_maps merge_maps_by_prefix
lookup-merge_maps key new old = rw (with_prefix-nil new) (lookup-insert_all key new old)
