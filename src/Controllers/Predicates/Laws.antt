-- ===== src/Controllers/Predicates/Laws.antt =====
-- Which objects are reconciled: pkg/predicates/predicates.go.
use starrocks_kubernetes_ope.Base.{
  String, ℕ, Option, none, some, List, [], ◌∷◌, true, false, split, codes, trim_space, same_codes,
  any, All, ◌≡◌, ◌≢◌, ◌↔◌, arith, Bool-cases, inl, inr,
}
use starrocks_kubernetes_ope.Kube.{ObjectMeta, annotation}
use starrocks_kubernetes_ope.Controllers.Predicates.{
  deny_list, deny_entries, is_namespace_allowed, is_object_allowed, is_ignored, should_reconcile,
}
use text.Mathlib.Text.{◌==◌}
use text.Mathlib.TextEquality.{eq_iff}

same_codes_iff : (xs ys : List ℕ) → (same_codes xs ys ≡ true) ↔ (xs ≡ ys)
same_codes_iff [] [] = ground arith
same_codes_iff [] (y ∷ ys) = ground arith
same_codes_iff (x ∷ xs) [] = ground arith
same_codes_iff (x ∷ xs) (y ∷ ys) = ground (arith, same_codes_iff xs ys)

-- An entry of the list denies a namespace: it is not blank, and trimmed it is the namespace.
abbrev pub Denies : (namespace entry : String) → Type 0
Denies namespace entry =
    (trim_space (codes entry) ≢ []) × (codes namespace ≡ trim_space (codes entry))

any-deny_entries_iff :
    (namespace : String) (entries : List String)
    → (any (same_codes (codes namespace)) (deny_entries entries) ≡ false)
      ↔ All (λ entry. ¬ Denies namespace entry) entries
unfolding deny_entries
any-deny_entries_iff namespace [] = ground arith
any-deny_entries_iff namespace (entry ∷ entries) = ground (
  arith,
  any-deny_entries_iff namespace entries,
  same_codes_iff (codes namespace) (trim_space (codes entry)),
)

is_ignored_iff : (o : Option String) → (is_ignored o ≡ false) ↔ (o ≢ some "true")
unfolding is_ignored
is_ignored_iff none = ground arith
is_ignored_iff (some status) = ground (arith, eq_iff status "true")

deny_list_iff :
    (namespace text : String)
    → (any (same_codes (codes namespace)) (deny_list text) ≡ false)
      ↔ All (λ entry. ¬ Denies namespace entry) (split b',' text)
unfolding deny_list
deny_list_iff namespace text = elim (Bool-cases (text == "")) [
  | inl empty ↦ rw ((eq_iff text "").0 empty) (unfold split trim_space in ground arith)
  | inr given ↦ rw given (any-deny_entries_iff namespace (split b',' text))
]

-- An object is reconciled exactly when no entry of the comma-separated deny list, trimmed and not
-- blank, is its namespace, and its annotation starrocks.com/ignored is not the text "true".
pub should_reconcile_iff :
    (text : String) (meta : ObjectMeta)
    → (should_reconcile (deny_list text) (some meta) ≡ true) ↔ (
        All (λ entry. ¬ Denies meta.namespace entry) (split b',' text)
        × (annotation "starrocks.com/ignored" meta ≢ some "true"))
unfolding should_reconcile is_namespace_allowed is_object_allowed
should_reconcile_iff text meta = ground (
  arith,
  deny_list_iff meta.namespace text,
  is_ignored_iff (annotation "starrocks.com/ignored" meta),
)
