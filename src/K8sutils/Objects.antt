-- ===== src/K8sutils/Objects.antt =====
-- CreateClientObject and PatchByThreeWayMerge: pkg/k8sutils/k8sutils.go.
use starrocks_kubernetes_ope.Base.{
  String, some, [], Result, ok, err, panic, wrapped, get_text, or_else, if◌then◌else◌, not,
}
use starrocks_kubernetes_ope.Base.Results.Stateful.{M, ◌>>=◌, pure, read}
use starrocks_kubernetes_ope.Kube.{Access, ObjectMeta, key_of, annotation, annotate}
use starrocks_kubernetes_ope.Kube.Client.{Client, Store}
use text.Mathlib.Text.{◌==◌}

abbrev pub last_applied_config_annotation : String
last_applied_config_annotation = "starrocks.kubernetes.operator/last-applied-configuration"

-- fmt.Errorf("…: %w", err)
abbrev pub wrapping : {A : Type 0} → String → Result A → Result A
wrapping text (ok a) = ok a
wrapping text (err e) = err (wrapped text e)
wrapping text (panic p) = panic p

-- A call whose error is wrapped.
abbrev pub wrapping_call : {S A : Type 0} → String → M S A → M S A
wrapping_call text m s = let (r, s') = m s in (wrapping text r, s')

abbrev pub with_annotations : ObjectMeta → ObjectMeta
with_annotations m = record m { annotations = some (or_else m.annotations []) }

module _ (c : Client) {Obj : Type 0} (access : Access Obj) (store : Store c.World Obj) where
  -- CreateClientObject; the object is what the server answers with
  unfoldable pub create_client_object : Obj → M c.World Obj
  unfolding get_text
  create_client_object object =
      let m = with_annotations (access.meta object) in
      let prepared = access.with_meta m object in
      if not (get_text last_applied_config_annotation (or_else m.annotations []) == "")
      then store.create prepared
      else do
        text ← read (λ _. store.marshal prepared)
        store.create (access.with_meta (annotate last_applied_config_annotation text m) prepared)

  -- The body of the retry at the end of PatchByThreeWayMerge.
  refresh_last_applied : Obj → String → M c.World (Unit {0})
  refresh_last_applied expect expect_text = do
    actual ← read (λ w.
        wrapping "failed to get object for annotation update"
          (store.get (key_of (access.meta expect)) w))
    store.update (
        access.with_meta (annotate last_applied_config_annotation expect_text (access.meta actual))
          actual)

  apply_patch : (expect actual : Obj) (expect_text patch : String) → M c.World (Unit {0})
  unfolding refresh_last_applied
  apply_patch expect actual expect_text patch = if patch == "{}" then pure tt else do
    _ ← wrapping_call "failed to apply merge patch" (store.patch actual patch)
    wrapping_call "failed to update last applied annotation"
        (c.retry_on_conflict (refresh_last_applied expect expect_text))

  -- PatchByThreeWayMerge
  unfoldable pub patch_by_three_way_merge : (expect actual : Obj) → M c.World (Unit {0})
  unfolding apply_patch
  patch_by_three_way_merge expect actual = do
    let last = or_else (annotation last_applied_config_annotation (access.meta actual)) ""
    expect_text ← read (λ _. wrapping "failed to marshal expected state" (store.marshal expect))
    actual_text ← read (λ _. wrapping "failed to marshal actual state" (store.marshal actual))
    let noted =
        access.with_meta (annotate last_applied_config_annotation expect_text (access.meta actual))
          actual
    _ ← read (λ _. wrapping "failed to create patch meta" (store.patch_meta expect))
    patch ←
        read
          (λ _. wrapping "failed to create merge patch" (store.merge last expect_text actual_text))
    apply_patch expect noted expect_text patch
