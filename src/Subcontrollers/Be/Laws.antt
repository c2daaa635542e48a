-- ===== src/Subcontrollers/Be/Laws.antt =====
-- When SyncCluster of the BE deploys, and when it writes nothing: pkg/subcontrollers/be/be_controller.go.
use starrocks_kubernetes_ope.Base.{
  String, some, is_some, [], Dict, true, false, Result, ok, err, panic, Error, ◌≡◌, ◌⊎◌, inl, inr,
  refl, ap, Bool-cases, Result-cases,
}
use starrocks_kubernetes_ope.Kube.Client.{Client, Settings}
use starrocks_kubernetes_ope.Api.{StarRocksBeSpec, StarRocksCluster, validate_component}
use starrocks_kubernetes_ope.Controllers.Cluster.{Local, on_world}
use starrocks_kubernetes_ope.Subcontrollers.Fe.Config.{get_fe_config, may_go_on}
use starrocks_kubernetes_ope.Subcontrollers.Fe.Config.Laws.{IsUp, may_go_on_iff}
use starrocks_kubernetes_ope.Subcontrollers.Fe.Recovery.{should_enter_disaster_recovery_mode}
use starrocks_kubernetes_ope.Subcontrollers.Be.{
  be_sync_cluster, be_sync_spec, be_sync_ready, be_deploy, unless_recovering, ignoring_error,
}

module _ (c : Client) (settings : Settings) where
  -- Disaster recovery is due for the configuration of the FE.
  abbrev pub IsRecovering : StarRocksCluster → c.World → Type 0
  IsRecovering src w =
      (config : Dict String) × (get_fe_config c src.meta.namespace src.spec.fe_spec w ≡ ok config)
      × (is_some (
            should_enter_disaster_recovery_mode src.spec.disaster_recovery
              src.status.disaster_recovery_status config)
          ≡ true)

  be_sync_ready-recovering :
      (src : StarRocksCluster) (spec : StarRocksBeSpec) (w : c.World)
      → IsRecovering src w
      → be_sync_ready c settings src spec w ≡ (ok tt, w)
  unfolding be_sync_ready unless_recovering
  be_sync_ready-recovering src spec w (config, read, due) = rw (read, due) refl

  be_sync_spec-held :
      (src : StarRocksCluster) (spec : StarRocksBeSpec) (w : c.World)
      → validate_component spec.component ≡ ok tt
      → (may_go_on c src w ≡ false) ⊎ IsRecovering src w
      → be_sync_spec c settings src spec w ≡ (ok tt, w)
  unfolding be_sync_spec
  be_sync_spec-held src spec w valid (inl waiting) = rw (valid, waiting) refl
  be_sync_spec-held src spec w valid (inr recovering) = elim (Bool-cases (may_go_on c src w)) [
    | inl ready ↦ rw (valid, ready, be_sync_ready-recovering src spec w recovering) refl
    | inr waiting ↦ rw (valid, waiting) refl
  ]

  -- While the FE is not ready, or not fully rolled out where the cluster asks to wait for that, and
  -- while disaster recovery is due, SyncCluster of a valid BE succeeds, and changes neither the world
  -- nor the cluster.
  pub be_sync_cluster-held :
      (l : Local c.World) (spec : StarRocksBeSpec)
      → l.src.spec.be_spec ≡ some spec
      → validate_component spec.component ≡ ok tt
      → (may_go_on c l.src l.world ≡ false) ⊎ IsRecovering l.src l.world
      → be_sync_cluster c settings l ≡ (ok tt, l)
  unfolding be_sync_cluster
  be_sync_cluster-held l spec given valid held =
      rw (given, be_sync_spec-held l.src spec l.world valid held) refl

  -- What SyncCluster of a BE asks for before it deploys, and the configuration of the FE that it
  -- deploys with: the specification is valid, the FE is up, and disaster recovery is not due for the
  -- configuration, which is empty where reading it gives an error.
  pub record IsDeployable (src : StarRocksCluster) (spec : StarRocksBeSpec) (w : c.World)
      : Type 0 where
    pub valid : validate_component spec.component ≡ ok tt
    pub up : IsUp c src w
    pub config : Dict String
    pub configured :
        let read = get_fe_config c src.meta.namespace src.spec.fe_spec w in
        (read ≡ ok config) ⊎ ((e : Error) × (read ≡ err e) × (config ≡ []))
    pub calm :
        is_some (
          should_enter_disaster_recovery_mode src.spec.disaster_recovery
            src.status.disaster_recovery_status config)
        ≡ false

  -- The call goes on to the objects of the BE.
  pub Deploys : Local c.World → StarRocksBeSpec → Type 0
  Deploys l spec =
      (deployable : IsDeployable l.src spec l.world) × (be_sync_cluster c settings l
        ≡ on_world (be_deploy c settings l.src spec deployable.config) l)

  -- The call may not deploy: it writes nothing and leaves the cluster as it is.
  abbrev pub Stays : Local c.World → StarRocksBeSpec → Type 0
  Stays l spec =
      (¬ IsDeployable l.src spec l.world)
      × (r : Result (Unit {0})) × (be_sync_cluster c settings l ≡ (r, l))

  -- The configuration to deploy with is the one that is read.
  configured_lem :
      (src : StarRocksCluster) (spec : StarRocksBeSpec) (w : c.World) (d : IsDeployable src spec w)
      → ignoring_error (get_fe_config c src.meta.namespace src.spec.fe_spec w) ≡ ok d.config
  configured_lem src spec w d = elim d.configured [
    | inl read ↦ ap ignoring_error read
    | inr (e, failed, empty) ↦ rw (failed, empty) refl
  ]

  ready-cases :
      (l : Local c.World) (spec : StarRocksBeSpec) (config : Dict String)
      → l.src.spec.be_spec ≡ some spec
      → validate_component spec.component ≡ ok tt
      → may_go_on c l.src l.world ≡ true
      → (let read = get_fe_config c l.src.meta.namespace l.src.spec.fe_spec l.world in
          (read ≡ ok config) ⊎ ((e : Error) × (read ≡ err e) × (config ≡ [])))
      → ignoring_error (get_fe_config c l.src.meta.namespace l.src.spec.fe_spec l.world) ≡ ok config
      → Deploys l spec ⊎ Stays l spec
  unfolding be_sync_cluster be_sync_spec be_sync_ready unless_recovering Deploys
  ready-cases l spec config given valid ready configured ignored =
      elim (Bool-cases (
        is_some (
          should_enter_disaster_recovery_mode l.src.spec.disaster_recovery
            l.src.status.disaster_recovery_status config))) [
              | inl due ↦ inr (
                (λ d. cc (configured_lem l.src spec l.world d, ignored, due, d.calm)),
                ok tt,
                rw (given, valid, ready, ignored, due) refl,
              )
              | inr calm ↦ inl (
                record {
                  valid = valid;
                  up = (may_go_on_iff c l.src l.world).0 ready;
                  config = config;
                  configured = configured;
                  calm = calm;
                },
                rw (given, valid, ready, ignored, calm) refl,
              )
            ]

  up-cases :
      (l : Local c.World) (spec : StarRocksBeSpec)
      → l.src.spec.be_spec ≡ some spec
      → validate_component spec.component ≡ ok tt
      → may_go_on c l.src l.world ≡ true
      → Deploys l spec ⊎ Stays l spec
  unfolding be_sync_cluster be_sync_spec be_sync_ready
  up-cases l spec given valid ready =
      elim (Result-cases (get_fe_config c l.src.meta.namespace l.src.spec.fe_spec l.world)) [
        | inl (config, read) ↦
            ready-cases l spec config given valid ready (inl read) (ap ignoring_error read)
        | inr (inl (e, failed)) ↦
            ready-cases l spec [] given valid ready (inr (e, failed, refl))
              (ap ignoring_error failed)
        | inr (inr (p, panicked)) ↦ inr (
          (λ d. cc (configured_lem l.src spec l.world d, ap ignoring_error panicked)),
          panic p,
          rw (given, valid, ready, panicked) refl,
        )
      ]

  -- SyncCluster of a BE deploys exactly where the specification is valid, the FE is ready, or fully
  -- rolled out where the cluster asks to wait for that, and disaster recovery is not due for the
  -- configuration of the FE, and then with this configuration, taken as empty where reading it gives
  -- an error. Else the call writes nothing and leaves the cluster as it is.
  pub be_sync_cluster-Deploys :
      (l : Local c.World) (spec : StarRocksBeSpec)
      → l.src.spec.be_spec ≡ some spec
      → Deploys l spec ⊎ Stays l spec
  unfolding be_sync_cluster be_sync_spec
  be_sync_cluster-Deploys l spec given = elim (Result-cases (validate_component spec.component)) [
    | inr (inl (e, invalid)) ↦ inr ((λ d. cc (d.valid, invalid)), err e, rw (given, invalid) refl)
    | inr (inr (p, panicked)) ↦
        inr ((λ d. cc (d.valid, panicked)), panic p, rw (given, panicked) refl)
    | inl (tt, valid) ↦ elim (Bool-cases (may_go_on c l.src l.world)) [
      | inl ready ↦ up-cases l spec given valid ready
      | inr waiting ↦ inr (
        (λ d. cc ((may_go_on_iff c l.src l.world).1 d.up, waiting)),
        ok tt,
        rw (given, valid, waiting) refl,
      )
    ]
  ]
