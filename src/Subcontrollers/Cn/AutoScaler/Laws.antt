-- ===== src/Subcontrollers/Cn/AutoScaler/Laws.antt =====
-- Reconciling an unchanged autoscaler a second time writes nothing: deployAutoScaler of
-- pkg/subcontrollers/cn/cn_controller.go.
use starrocks_kubernetes_ope.Base.{
  some, or_else, true, false, ok, ◌≡◌, refl, ap, ◌∙◌, sym, subst, Bool-cases, inl, inr,
}
use starrocks_kubernetes_ope.Kube.{
  key_of, annotate, annotation, annotation-annotate, HorizontalPodAutoscaler,
}
use starrocks_kubernetes_ope.Kube.Client.{Client, Settings}
use starrocks_kubernetes_ope.Api.{AutoScalingPolicy}
use starrocks_kubernetes_ope.K8sutils.Equality.{component_resource_hash}
use starrocks_kubernetes_ope.Templates.Names.{StarRocksObject}
use starrocks_kubernetes_ope.Subcontrollers.Cn.AutoScaler.{
  deploy_auto_scaler, expected_hpa, get_expected_hpa, update_hpa_found, hashed_hpa, hpa_hash,
}
use text.Mathlib.Text.{◌==◌}
use text.Mathlib.TextPositions.{eq_refl}

module _ (c : Client) (settings : Settings) (object : StarRocksObject)
    (policy : AutoScalingPolicy) where
  abbrev expect : HorizontalPodAutoscaler
  expect = expected_hpa c settings object policy

  -- The API server stores an update of the autoscaler, the object of its namespace and name: a later
  -- Get finds an object with the hash that the update carried, whatever else the server fills in.
  pub record StoresHpa : Type 0 where
    pub stored :
        (hpa : HorizontalPodAutoscaler) (w w' : c.World)
        → key_of hpa.meta ≡ key_of expect.meta
        → c.update_hpa hpa w ≡ (ok tt, w')
        → (a : HorizontalPodAutoscaler) × (get_expected_hpa c settings object policy w' ≡ ok a)
          × (annotation component_resource_hash a.meta
              ≡ annotation component_resource_hash hpa.meta)

  hashed_hpa-key :
      (hpa : HorizontalPodAutoscaler) → key_of (hashed_hpa c settings hpa).meta ≡ key_of hpa.meta
  unfolding hashed_hpa annotate
  hashed_hpa-key hpa = refl

  hashed_hpa-annotation :
      (hpa : HorizontalPodAutoscaler)
      → annotation component_resource_hash (hashed_hpa c settings hpa).meta
        ≡ some (hpa_hash c settings hpa)
  unfolding hashed_hpa
  hashed_hpa-annotation hpa =
      annotation-annotate component_resource_hash component_resource_hash (hpa_hash c settings hpa)
        hpa.meta

  -- The autoscaler that the server has is the expected one, as its hash tells.
  abbrev IsCurrent : HorizontalPodAutoscaler → Type 0
  IsCurrent actual =
      (hpa_hash c settings expect
        == or_else (annotation component_resource_hash actual.meta) (hpa_hash c settings actual))
      ≡ true

  deploy_auto_scaler-current :
      (w : c.World) (actual : HorizontalPodAutoscaler)
      → get_expected_hpa c settings object policy w ≡ ok actual
      → IsCurrent actual
      → deploy_auto_scaler c settings object policy w ≡ (ok tt, w)
  unfolding deploy_auto_scaler update_hpa_found
  deploy_auto_scaler-current w actual found current = rw (found, current) refl

  deploy_auto_scaler-stale :
      (w : c.World) (actual : HorizontalPodAutoscaler)
      → get_expected_hpa c settings object policy w ≡ ok actual
      → (hpa_hash c settings expect
          == or_else (annotation component_resource_hash actual.meta) (hpa_hash c settings actual))
        ≡ false
      → deploy_auto_scaler c settings object policy w
        ≡ c.update_hpa (hashed_hpa c settings expect) w
  unfolding deploy_auto_scaler update_hpa_found
  deploy_auto_scaler-stale w actual found stale = rw (found, stale) refl

  -- Where an autoscaler is there, and reconciling it has succeeded, reconciling the same policy again
  -- succeeds and writes nothing, if the server stores updates.
  pub deploy_auto_scaler-twice :
      StoresHpa
      → (w w' : c.World) (actual : HorizontalPodAutoscaler)
      → get_expected_hpa c settings object policy w ≡ ok actual
      → deploy_auto_scaler c settings object policy w ≡ (ok tt, w')
      → deploy_auto_scaler c settings object policy w' ≡ (ok tt, w')
  deploy_auto_scaler-twice stores w w' actual found done =
      elim (Bool-cases (
        hpa_hash c settings expect
        == or_else (annotation component_resource_hash actual.meta) (hpa_hash c settings actual))) [
          | inl current ↦
              let same = deploy_auto_scaler-current w actual found current in
              subst (λ v. deploy_auto_scaler c settings object policy v ≡ (ok tt, v))
                (ap (λ p. p.1) (sym same ∙ done)) same
          | inr stale ↦
              let (stored, get, same) =
                stores.stored (hashed_hpa c settings expect) w w' (hashed_hpa-key expect)
                  (sym (deploy_auto_scaler-stale w actual found stale) ∙ done) in
              deploy_auto_scaler-current w' stored get
                (rw (same, hashed_hpa-annotation expect) (eq_refl (hpa_hash c settings expect)))
        ]
