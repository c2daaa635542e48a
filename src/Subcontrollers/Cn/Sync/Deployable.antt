-- ===== src/Subcontrollers/Cn/Sync/Deployable.antt =====
-- When SyncWarehouse deploys a warehouse: pkg/subcontrollers/cn/cn_controller.go.
use starrocks_kubernetes_ope.Base.{
  String, some, Dict, true, false, Result, ok, err, panic, Error, sentinel, is_not_found,
  err_spec_is_missing, err_warehouse_name_is_not_allowed, err_starrocks_cluster_is_missing,
  err_should_run_in_shared_data_mode, err_fe_is_not_ready, ◌≡◌, ◌≢◌, ◌⊎◌, inl, inr, refl,
  Bool-cases, Option-cases, Result-cases, if◌then◌else◌,
}
use starrocks_kubernetes_ope.Kube.Client.{Client, Settings}
use starrocks_kubernetes_ope.Api.{StarRocksCluster, StarRocksWarehouse, WarehouseComponentSpec}
use starrocks_kubernetes_ope.Controllers.Cluster.{ClusterClient}
use starrocks_kubernetes_ope.Subcontrollers.PodTemplates.{Http}
use starrocks_kubernetes_ope.Subcontrollers.Fe.Checks.{check_fe_ready, is_run_in_shared_data_mode}
use starrocks_kubernetes_ope.Subcontrollers.Cn.ComputeNodes.{Sql, ComputeNode}
use starrocks_kubernetes_ope.Subcontrollers.Cn.Sync.{
  get_fe_config_of, sync_warehouse, sync_template, check_cluster, cluster_found, require,
}
use text.Mathlib.Text.{◌==◌}

module _ (c : Client) (settings : Settings) (cluster_client : ClusterClient c.World)
    (sql : Sql c.World ComputeNode) (http : Http c.World) where
  -- What the cluster of a warehouse must be: it is found, runs in shared-data mode by the
  -- configuration of its FE, and its FE is ready.
  pub record IsUsable (namespace cluster_name : String) (w : c.World) : Type 0 where
    pub src : StarRocksCluster
    pub found :
        cluster_client.get_cluster (record { namespace = namespace; name = cluster_name }) w
        ≡ ok src
    pub config : Dict String
    pub configured : get_fe_config_of c cluster_client namespace cluster_name w ≡ (ok config, w)
    pub shared : is_run_in_shared_data_mode config ≡ true
    pub ready : check_fe_ready c namespace cluster_name w ≡ true

  -- A call that has failed and written nothing.
  abbrev pub HasFailed : {A : Type 0} → Result A × c.World → c.World → Type 0
  HasFailed {A} x w = (r : Result A) × (x ≡ (r, w)) × ((a : A) → r ≢ ok a)

  require_all :
      (namespace cluster_name : String) (w : c.World) (src : StarRocksCluster)
      → cluster_client.get_cluster (record { namespace = namespace; name = cluster_name }) w
        ≡ ok src
      → (config : Dict String)
      → get_fe_config_of c cluster_client namespace cluster_name w ≡ (ok config, w)
      → (IsUsable namespace cluster_name w
          × (check_cluster c settings cluster_client sql http namespace cluster_name w
              ≡ (ok tt, w)))
        ⊎ HasFailed (check_cluster c settings cluster_client sql http namespace cluster_name w) w
  unfolding check_cluster require cluster_found
  require_all namespace cluster_name w src found config configured =
      elim (Bool-cases (is_run_in_shared_data_mode config)) [
        | inr other ↦ inr (
          err (sentinel err_should_run_in_shared_data_mode),
          rw (found, configured, other) refl,
          λ a h. cc,
        )
        | inl shared ↦ elim (Bool-cases (check_fe_ready c namespace cluster_name w)) [
          | inl ready ↦ inl (
            record {
              src = src;
              found = found;
              config = config;
              configured = configured;
              shared = shared;
              ready = ready;
            },
            rw (found, configured, shared, ready) refl,
          )
          | inr waiting ↦ inr (
            err (sentinel err_fe_is_not_ready),
            rw (found, configured, shared, waiting) refl,
            λ a h. cc,
          )
        ]
      ]

  -- Reading the configuration writes nothing.
  pub get_fe_config_of-reads :
      (namespace cluster_name : String) (w : c.World)
      → (get_fe_config_of c cluster_client namespace cluster_name w).1 ≡ w
  unfolding get_fe_config_of
  get_fe_config_of-reads namespace cluster_name w =
      elim (Result-cases
        (cluster_client.get_cluster (record { namespace = namespace; name = cluster_name }) w)) [
          | inl (src, found) ↦ rw found refl
          | inr (inl (e, failed)) ↦ rw failed refl
          | inr (inr (p, panicked)) ↦ rw panicked refl
        ]

  pub outcome :
      {A : Type 0} (x : Result A × c.World) (w : c.World)
      → x.1 ≡ w
      → ((a : A) × (x ≡ (ok a, w))) ⊎ HasFailed x w
  outcome (ok a, v) w same = inl (a, λ i. (ok a, same i))
  outcome (err e, v) w same = inr (err e, (λ i. (err e, same i)), λ a h. cc)
  outcome (panic p, v) w same = inr (panic p, (λ i. (panic p, same i)), λ a h. cc)

  absent_cluster :
      (namespace cluster_name : String) (w : c.World) (e : Error)
      → cluster_client.get_cluster (record { namespace = namespace; name = cluster_name }) w ≡ err e
      → HasFailed (check_cluster c settings cluster_client sql http namespace cluster_name w) w
  unfolding check_cluster cluster_found
  absent_cluster namespace cluster_name w e absent = (
    err (if is_not_found e then sentinel err_starrocks_cluster_is_missing else e),
    rw absent refl,
    λ a h. cc,
  )

  failed_config :
      (namespace cluster_name : String) (w : c.World) (src : StarRocksCluster)
      → cluster_client.get_cluster (record { namespace = namespace; name = cluster_name }) w
        ≡ ok src
      → (r : Result (Dict String))
      → get_fe_config_of c cluster_client namespace cluster_name w ≡ (r, w)
      → ((config : Dict String) → r ≢ ok config)
      → HasFailed (check_cluster c settings cluster_client sql http namespace cluster_name w) w
  unfolding check_cluster cluster_found
  failed_config namespace cluster_name w src found (ok config) failed not_ok =
      absurd (not_ok config refl)
  failed_config namespace cluster_name w src found (err e) failed not_ok =
      (err e, rw (found, failed) refl, λ a h. cc)
  failed_config namespace cluster_name w src found (panic p) failed not_ok =
      (panic p, rw (found, failed) refl, λ a h. cc)

  -- The checks on the cluster write nothing, and pass only where it is usable.
  check_cluster-cases :
      (namespace cluster_name : String) (w : c.World)
      → (IsUsable namespace cluster_name w
          × (check_cluster c settings cluster_client sql http namespace cluster_name w
              ≡ (ok tt, w)))
        ⊎ HasFailed (check_cluster c settings cluster_client sql http namespace cluster_name w) w
  unfolding check_cluster cluster_found
  check_cluster-cases namespace cluster_name w =
      elim (Result-cases
        (cluster_client.get_cluster (record { namespace = namespace; name = cluster_name }) w)) [
          | inr (inl (e, absent)) ↦ inr (absent_cluster namespace cluster_name w e absent)
          | inr (inr (p, panicked)) ↦ inr (panic p, rw panicked refl, λ a h. cc)
          | inl (src, found) ↦
              elim (outcome (get_fe_config_of c cluster_client namespace cluster_name w) w
                (get_fe_config_of-reads namespace cluster_name w)) [
                  | inl (config, configured) ↦
                      require_all namespace cluster_name w src found config configured
                  | inr (r, failed, not_ok) ↦
                      inr (failed_config namespace cluster_name w src found r failed not_ok)
                ]
        ]

  -- What SyncWarehouse asks for before it deploys anything.
  pub record IsDeployable (warehouse : StarRocksWarehouse) (w : c.World) : Type 0 where
    pub template : WarehouseComponentSpec
    pub given : warehouse.template ≡ some template
    pub named : (warehouse.starrocks_cluster == "") ≡ false
    pub distinct : (warehouse.meta.name == warehouse.starrocks_cluster) ≡ false
    pub usable : IsUsable warehouse.meta.namespace warehouse.starrocks_cluster w

  sync_template-cases :
      (warehouse : StarRocksWarehouse) (template : WarehouseComponentSpec) (w : c.World)
      → warehouse.template ≡ some template
      → IsDeployable warehouse w
        ⊎ HasFailed (sync_template c settings cluster_client sql http warehouse template w) w
  unfolding sync_template
  sync_template-cases warehouse template w given =
      elim (Bool-cases (warehouse.starrocks_cluster == "")) [
        | inl empty ↦ inr (err (sentinel err_spec_is_missing), rw empty refl, λ a h. cc)
        | inr named ↦ elim (Bool-cases (warehouse.meta.name == warehouse.starrocks_cluster)) [
          | inl same ↦
              inr
                (err (sentinel err_warehouse_name_is_not_allowed), rw (named, same) refl, λ a h. cc)
          | inr distinct ↦
              elim (check_cluster-cases warehouse.meta.namespace warehouse.starrocks_cluster w) [
                | inl (usable, _) ↦ inl (record {
                  template = template;
                  given = given;
                  named = named;
                  distinct = distinct;
                  usable = usable;
                })
                | inr (err e, failed, _) ↦ inr (err e, rw (named, distinct, failed) refl, λ a h. cc)
                | inr (panic p, failed, _) ↦
                    inr (panic p, rw (named, distinct, failed) refl, λ a h. cc)
                | inr (ok done, failed, not_ok) ↦ absurd (not_ok done refl)
              ]
        ]
      ]

  -- SyncWarehouse deploys a warehouse only where the specification has a template and names a cluster
  -- of another name than the warehouse's, and that cluster is found, runs in shared-data mode and has
  -- an FE that is ready. Else it fails, and writes nothing.
  pub sync_warehouse-deploys :
      (warehouse : StarRocksWarehouse) (w : c.World)
      → IsDeployable warehouse w
        ⊎ HasFailed (sync_warehouse c settings cluster_client sql http warehouse w) w
  unfolding sync_warehouse
  sync_warehouse-deploys warehouse w = elim (Option-cases warehouse.template) [
    | inl missing ↦ inr (err (sentinel err_spec_is_missing), rw missing refl, λ a h. cc)
    | inr (template, given) ↦ elim (sync_template-cases warehouse template w given) [
      | inl deployable ↦ inl deployable
      | inr (r, failed, not_ok) ↦ inr (r, rw given failed, not_ok)
    ]
  ]
