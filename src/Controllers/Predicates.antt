-- ===== src/Controllers/Predicates.antt =====
-- The filter of events: pkg/predicates/predicates.go.
pub mod Laws
use starrocks_kubernetes_ope.Base.{
  String, ℕ, Option, none, some, List, [], ◌∷◌, Bool, true, false, split, codes, trim_space,
  same_codes, any, if◌then◌else◌, ◌&&◌, not,
}
use starrocks_kubernetes_ope.Kube.{ObjectMeta, annotation}
use text.Mathlib.Text.{◌==◌}

-- The entries of the list that are not empty, as the character codes of the trimmed texts.
deny_entries : List String → List (List ℕ)
unfolding trim_space
deny_entries [] = []
deny_entries (entry ∷ entries) =
    let rest = deny_entries entries in
    elim (trim_space (codes entry)) [ [] ↦ rest | c ∷ cs ↦ (c ∷ cs) ∷ rest ]

-- NewGenericPredicates: a comma-separated list of namespaces
unfoldable pub deny_list : String → List (List ℕ)
unfolding deny_entries split
deny_list text = if text == "" then [] else deny_entries (split b',' text)

-- isNamespaceAllowed
unfoldable pub is_namespace_allowed : List (List ℕ) → (namespace : String) → Bool
is_namespace_allowed denied namespace = not (any (same_codes (codes namespace)) denied)

is_ignored : Option String → Bool
is_ignored none = false
is_ignored (some status) = status == "true"

-- isObjectAllowed
unfoldable pub is_object_allowed : ObjectMeta → Bool
unfolding annotation is_ignored
is_object_allowed meta = not (is_ignored (annotation "starrocks.com/ignored" meta))

-- shouldReconcile, which Create, Update, Delete and Generic apply to the event's (new) object
unfoldable pub should_reconcile : List (List ℕ) → Option ObjectMeta → Bool
unfolding is_namespace_allowed is_object_allowed
should_reconcile denied none = false
should_reconcile denied (some meta) =
    if not (is_namespace_allowed denied meta.namespace)
    then false
    else if not (is_object_allowed meta)
    then false
    else true
