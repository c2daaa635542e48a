-- ===== src/Subcontrollers/PodTemplates/Built.antt =====
-- The templates of the pods, and the stateful sets that are made of them: pkg/subcontrollers/{fe/fe_pod.go,be/be_pod.go,cn/cn_pod.go}.
use starrocks_kubernetes_ope.Base.{
  String, List, [], ◌∷◌, Dict, Result, ok, ◌≡◌, refl, sym, ap, ◌∙◌, subst,
}
use starrocks_kubernetes_ope.Base.Results.Fallible.{◌>>=◌, bind-eq-ok, ok-injective}
use starrocks_kubernetes_ope.Kube.{PodTemplateSpec, StatefulSet}
use starrocks_kubernetes_ope.Kube.Client.{Client, Settings}
use starrocks_kubernetes_ope.Api.{
  Spec, fe_spec, be_spec, cn_spec, load_of, StarRocksFeSpec, StarRocksBeSpec, StarRocksCnSpec,
  StorageVolume, get_update_strategy,
}
use starrocks_kubernetes_ope.Templates.Names.{StarRocksObject}
use starrocks_kubernetes_ope.Templates.Mounts.{Mounts, mount_storage_volumes}
use starrocks_kubernetes_ope.Templates.Workloads.{make_statefulset, dereferenced, pvc_list}
use starrocks_kubernetes_ope.Templates.Workloads.Laws.{claims_in, names_of_claims, pvc_list-claims}
use starrocks_kubernetes_ope.Subcontrollers.PodTemplates.{
  fe_mounts, be_mounts, cn_mounts, fe_pod_template, be_pod_template, cn_pod_template, Http,
  warehouse_envs,
}
use starrocks_kubernetes_ope.Subcontrollers.PodTemplates.Laws.{
  IsMounted, fe_mounts-IsMounted, be_mounts-IsMounted, cn_mounts-IsMounted,
}

module _ (c : Client) (settings : Settings) where
  -- A template that one of the three functions buildPodTemplate yields for a specification.
  pub data Built (w : c.World) : Spec → PodTemplateSpec → Type 0 where
    built_fe :
        (namespace name : String) (spec : StarRocksFeSpec) (config : Dict String)
        (template : PodTemplateSpec)
        → fe_pod_template c settings namespace name spec config ≡ ok template
        → Built w (fe_spec spec) template
    built_be :
        (namespace name : String) (spec : StarRocksBeSpec) (config : Dict String)
        (template : PodTemplateSpec)
        → be_pod_template c settings namespace name spec config ≡ ok template
        → Built w (be_spec spec) template
    built_cn :
        (http : Http c.World) (object : StarRocksObject) (spec : StarRocksCnSpec)
        (config : Dict String) (template : PodTemplateSpec)
        → cn_pod_template c settings http object spec config w ≡ ok template
        → Built w (cn_spec spec) template

  -- The mounts of the main container, with the volumes of the pod.
  abbrev pub main_mounts : PodTemplateSpec → Mounts
  main_mounts template = record {
    volumes = template.spec.volumes;
    mounts = elim template.spec.containers [ [] ↦ [] | container ∷ rest ↦ container.volume_mounts ];
  }

  template-IsMounted :
      (storage : List StorageVolume) (r : Result Mounts) (f : Mounts → Result PodTemplateSpec)
      (template : PodTemplateSpec)
      → ((m : Mounts) → r ≡ ok m → IsMounted storage m)
      → ((m : Mounts) → f m ≡ ok template → main_mounts template ≡ m)
      → (r >>= f) ≡ ok template
      → IsMounted storage (main_mounts template)
  template-IsMounted storage r f template mounted same h =
      let (m, made, built) = bind-eq-ok r f h in
      subst (IsMounted storage) (sym (same m built)) (mounted m made)

  -- The first template of a chain is the last.
  built-main_mounts :
      (m : Mounts) (t template : PodTemplateSpec)
      → main_mounts t ≡ m
      → ok t ≡ ok template
      → main_mounts template ≡ m
  built-main_mounts m t template same h = subst (λ x. main_mounts x ≡ m) (ok-injective h) same

  -- In every pod that the FE, BE and CN sub-controllers build, with whatever storage volumes, config
  -- maps and secrets: the n-th mount of the main container names the n-th volume of the pod, no mount
  -- path and no volume name stands twice, and the claims that the volumes refer to are those of the
  -- storage volumes.
  pub Built-IsMounted :
      (w : c.World) (spec : Spec) (template : PodTemplateSpec)
      → Built w spec template
      → IsMounted (load_of spec).storage_volumes (main_mounts template)
  unfolding fe_pod_template be_pod_template cn_pod_template
  Built-IsMounted w _ _ (built_fe namespace name spec config template h) =
      template-IsMounted spec.storage_volumes (fe_mounts c settings spec) _ template
        (fe_mounts-IsMounted c settings spec) (λ m. built-main_mounts m _ template refl) h
  Built-IsMounted w _ _ (built_be namespace name spec config template h) =
      template-IsMounted spec.storage_volumes (be_mounts c settings spec) _ template
        (be_mounts-IsMounted c settings spec) (λ m. built-main_mounts m _ template refl) h
  Built-IsMounted w _ _ (built_cn http object spec config template h) =
      template-IsMounted spec.storage_volumes (cn_mounts c settings spec) _ template
        (cn_mounts-IsMounted c settings spec)
        (λ m rest.
          let (envs, made, built) =
            bind-eq-ok (warehouse_envs object.kind _ object.meta.name) _ rest in
          built-main_mounts m _ template refl built)
        h

  set-claims :
      (object : StarRocksObject) (spec : Spec) (template : PodTemplateSpec) (sts : StatefulSet)
      → make_statefulset c object spec template ≡ ok sts
      → (names_of_claims sts.spec.volume_claim_templates
          ≡ claims_in (mount_storage_volumes (load_of spec).storage_volumes).volumes)
        × (sts.spec.template ≡ template)
  unfolding make_statefulset
  set-claims object spec template sts h =
      let (strategy, found, rest) = bind-eq-ok (dereferenced (get_update_strategy spec)) _ h in
      let (claims, listed, made) = bind-eq-ok (pvc_list c (load_of spec).storage_volumes) _ rest in
      let same = ok-injective made in
      (
        ap (λ s. names_of_claims s.spec.volume_claim_templates) (sym same)
            ∙ pvc_list-claims c (load_of spec).storage_volumes claims listed,
        ap (λ s. s.spec.template) (sym same),
      )

  -- In a stateful set that MakeStatefulset makes of such a template, the claims are by name, and in
  -- their order, those that the volumes of its pods refer to: no pod waits for a claim that the set
  -- does not make, and the set makes none in vain.
  pub Built-claims :
      (w : c.World) (object : StarRocksObject) (spec : Spec) (template : PodTemplateSpec)
      (sts : StatefulSet)
      → Built w spec template
      → make_statefulset c object spec template ≡ ok sts
      → names_of_claims sts.spec.volume_claim_templates ≡ claims_in sts.spec.template.spec.volumes
  Built-claims w object spec template sts built made =
      let (names, same) = set-claims object spec template sts made in
      names
      ∙ sym (Built-IsMounted w spec template built).claims
      ∙ ap (λ t. claims_in t.spec.volumes) (sym same)
