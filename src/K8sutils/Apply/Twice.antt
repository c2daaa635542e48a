-- ===== src/K8sutils/Apply/Twice.antt =====
-- Reconciling an unchanged service a second time writes nothing: pkg/k8sutils/k8sutils.go.
use starrocks_kubernetes_ope.Base.{
  String, true, some, ok, err, Result-cases, Error, is_not_found, or_else, get_text, ◌≡◌, refl, sym,
  ◌∙◌, ap, Bool-cases, Option-cases, [], inl, inr,
}
use starrocks_kubernetes_ope.Base.Results.Stateful.{err-ne-ok, panic-ne-ok, created-eq-ok}
use starrocks_kubernetes_ope.Kube.{
  ObjectMeta, key_of, annotation, annotate, annotation-annotate, Service, service_access,
}
use starrocks_kubernetes_ope.Kube.Client.{Client}
use starrocks_kubernetes_ope.K8sutils.Objects.{
  create_client_object, with_annotations, last_applied_config_annotation,
}
use starrocks_kubernetes_ope.K8sutils.Equality.{component_resource_hash, service_deep_equal}
use starrocks_kubernetes_ope.K8sutils.Apply.{apply_service}
use text.Mathlib.Text.{◌==◌}
use text.Mathlib.TextPositions.{eq_refl}

-- The API server stores what is created: a later Get of its key finds an object with the same
-- namespace and the same recorded hash, whatever else the server fills in.
pub record StoresServices (c : Client) : Type 0 where
  pub stored :
      (o o' : Service) (w w' : c.World)
      → c.services.create o w ≡ (ok o', w')
      → (a : Service) × (c.services.get (key_of o.meta) w' ≡ ok a)
        × (annotation component_resource_hash a.meta ≡ annotation component_resource_hash o.meta)
        × (a.meta.namespace ≡ o.meta.namespace)

-- The service that is sent to the server.
abbrev prepared : Service → Service
prepared o = record o { meta = with_annotations o.meta }

abbrev sent_with : String → Service → Service
sent_with text o = record o {
  meta = annotate last_applied_config_annotation text (with_annotations o.meta);
}

hash-with_annotations :
    (m : ObjectMeta)
    → annotation component_resource_hash (with_annotations m) ≡ annotation component_resource_hash m
unfolding annotation
hash-with_annotations m = elim (Option-cases m.annotations) [
  | inl absent ↦ rw absent
  | inr (d, given) ↦ rw given
]

-- What is sent differs from the service in annotations only, and not in the recorded hash.
record IsSentFor (o sent : Service) : Type 0 where
  same_key : key_of sent.meta ≡ key_of o.meta
  same_hash :
      annotation component_resource_hash sent.meta ≡ annotation component_resource_hash o.meta

prepared-IsSentFor : (o : Service) → IsSentFor o (prepared o)
prepared-IsSentFor o = record { same_key = refl; same_hash = hash-with_annotations o.meta }

sent_with-IsSentFor : (text : String) (o : Service) → IsSentFor o (sent_with text o)
unfolding annotate
sent_with-IsSentFor text o = record {
  same_key = refl;
  same_hash =
      annotation-annotate component_resource_hash last_applied_config_annotation text
        (with_annotations o.meta)
      ∙ hash-with_annotations o.meta;
}

create_client_object-eq-ok :
    (c : Client) (o o' : Service) (w w' : c.World)
    → create_client_object c service_access c.services o w ≡ (ok o', w')
    → (sent : Service) × (c.services.create sent w ≡ (ok o', w')) × IsSentFor o sent
unfolding create_client_object
create_client_object-eq-ok c o o' w w' h =
    elim (Bool-cases (
      get_text last_applied_config_annotation (or_else (with_annotations o.meta).annotations [])
      == "")) [
        | inl blank ↦ elim (Result-cases (c.services.marshal (prepared o))) [
          | inl (text, marshalled) ↦
              (sent_with text o, rw (blank, marshalled) at h, sent_with-IsSentFor text o)
          | inr (inl (e, failed)) ↦ absurd (err-ne-ok (rw (blank, failed) at h))
          | inr (inr (p, failed)) ↦ absurd (panic-ne-ok (rw (blank, failed) at h))
        ]
        | inr given ↦ (prepared o, rw given at h, prepared-IsSentFor o)
      ]

deep_equal_of_hash :
    (c : Client) (expect actual : Service) (hash : String)
    → annotation component_resource_hash expect.meta ≡ some hash
    → annotation component_resource_hash actual.meta ≡ some hash
    → actual.meta.namespace ≡ expect.meta.namespace
    → service_deep_equal c expect actual ≡ (hash, true)
unfolding service_deep_equal
deep_equal_of_hash c expect actual hash e a same =
    rw (e, a, same, eq_refl hash, eq_refl expect.meta.namespace)

-- A service that was absent and is created is left alone by the next reconcile with the same
-- expectation: if the server keeps the recorded hash and the namespace of what it stores, the
-- expected service carries its hash, the first Get found nothing and ApplyService succeeded, then
-- ApplyService in the new world succeeds and changes nothing.
pub apply_service_twice :
    (c : Client)
    → StoresServices c
    → (expect : Service) (hash : String)
    → annotation component_resource_hash expect.meta ≡ some hash
    → (e : Error) (w w' : c.World) → c.services.get (key_of expect.meta) w ≡ err e
    → is_not_found e ≡ true
    → apply_service c expect (service_deep_equal c) w ≡ (ok tt, w')
    → apply_service c expect (service_deep_equal c) w' ≡ (ok tt, w')
unfolding apply_service
apply_service_twice c stores expect hash recorded e w w' absent missing applied =
    let (o', created) = created-eq-ok _ (rw (absent, missing) at applied) in
    let (sent, stored_at, for_it) = create_client_object-eq-ok c expect o' w w' created in
    let (a, found, kept, there) = stores.stored sent o' w w' stored_at in
    let found_there : c.services.get (key_of expect.meta) w' ≡ ok a =
      sym (ap (λ k. c.services.get k w') for_it.same_key) ∙ found in
    let equal : service_deep_equal c expect a ≡ (hash, true) =
      deep_equal_of_hash c expect a hash recorded (kept ∙ for_it.same_hash ∙ recorded)
        (there ∙ ap (λ k. k.namespace) for_it.same_key) in
    rw (found_there, equal)
