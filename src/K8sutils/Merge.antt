-- ===== src/K8sutils/Merge.antt =====
-- Merging of metadata: pkg/common/resource_utils/metadata.go.
pub mod Laws
use starrocks_kubernetes_ope.Base.{
  String, Option, none, some, List, [], ◌∷◌, ◌++◌, Dict, insert_all, insert, has_prefix, or_else,
  any, Bool, true, false, if◌then◌else◌, ◌&&◌, not,
}
use starrocks_kubernetes_ope.Kube.{ObjectMeta, OwnerReference}
use text.Mathlib.Text.{◌==◌}

abbrev pub contains_text : String → List String → Bool
contains_text s = any (λ t. t == s)

-- What MergeSlices appends: the old texts that are not among the new ones.
unfoldable absent_from : (new old : List String) → List String
absent_from new [] = []
absent_from new (s ∷ old) =
    let rest = absent_from new old in if contains_text s new then rest else s ∷ rest

-- MergeSlices
unfoldable pub merge_slices : (new old : List String) → List String
unfolding absent_from
merge_slices new old = new ++ absent_from new old

with_prefix : String → Dict String → Dict String
unfolding has_prefix
with_prefix prefix [] = []
with_prefix prefix ((k, v) ∷ from) =
    let rest = with_prefix prefix from in if has_prefix k prefix then (k, v) ∷ rest else rest

-- mergeMapsByPrefix; a nil map counts as an empty one
unfoldable pub merge_maps_by_prefix : (from to : Dict String) (prefix : String) → Dict String
unfolding with_prefix insert_all
merge_maps_by_prefix from to prefix = insert_all (with_prefix prefix from) to

-- mergeMaps
unfoldable pub merge_maps : (new old : Dict String) → Dict String
unfolding merge_maps_by_prefix
merge_maps new old = merge_maps_by_prefix new old ""

abbrev same_reference : OwnerReference → OwnerReference → Bool
same_reference a b =
    a.api_version == b.api_version && a.kind == b.kind && a.name == b.name && a.uid == b.uid

-- The old references that are not among the new ones.
unfoldable absent_references : (new old : List OwnerReference) → List OwnerReference
absent_references new [] = []
absent_references new (r ∷ old) =
    let rest = absent_references new old in if any (same_reference r) new then rest else r ∷ rest

-- mergeOwnerReferences
unfoldable pub merge_owner_references : (new old : List OwnerReference) → List OwnerReference
unfolding absent_references
merge_owner_references new old = new ++ absent_references new old

-- MergeMetadata
unfoldable pub merge_metadata : (new old : ObjectMeta) → ObjectMeta
unfolding merge_slices merge_maps merge_owner_references
merge_metadata new old = record new {
  resource_version = old.resource_version;
  finalizers = some (merge_slices (or_else new.finalizers []) (or_else old.finalizers []));
  labels = merge_maps new.labels old.labels;
  annotations = some (merge_maps (or_else new.annotations []) (or_else old.annotations []));
  owner_references = merge_owner_references new.owner_references old.owner_references;
}
