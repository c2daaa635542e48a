-- ===== src/Subcontrollers/Cn/ComputeNodes.antt =====
-- The compute nodes that the FE knows: SyncComputeNodesInFE of
-- pkg/subcontrollers/cn/cn_controller.go, and pkg/subcontrollers/cn/cn_mysql.go.
pub mod Laws
pub mod Order
use starrocks_kubernetes_ope.Base.{
  String, ℕ, ℤ, pos, negsuc, Option, none, some, List, [], ◌∷◌, ◌++◌, length, drop, head_or,
  last_or, get_text, Dict, Bool, true, false, Result, ok, err, panic, Error, failure, sentinel,
  err_replicas_not_equal, err_hash_value_not_equal, eqz, ltb, eqb, or_else, split, if◌then◌else◌,
  ◌<>◌, ◌||◌, not,
}
use starrocks_kubernetes_ope.Base.Results.Stateful.{M, ◌>>=◌, ◌>>◌, pure, fail, read}
use starrocks_kubernetes_ope.Kube.{Key, StatefulSet, Pod, Container, EnvVar}
use starrocks_kubernetes_ope.Kube.Client.{Client, Settings}
use starrocks_kubernetes_ope.K8sutils.Config.{get_env_var_value}
use starrocks_kubernetes_ope.K8sutils.Equality.{statefulset_deep_equal}
use starrocks_kubernetes_ope.Templates.Names.{
  StarRocksObject, cn_statefulset_name, warehouse_name_in_fe,
}
use starrocks_kubernetes_ope.Subcontrollers.Cn.SslMode.{ssl_mode_dsn_suffix}
use text.Mathlib.Text.{◌==◌}

-- What Go's libraries do: the MySQL driver on a data source name, Sscanf of "%d", and sort.Slice by
-- the index. A row is its column names with their values, of which a NULL has none.
pub record Sql (W : Type 0) (Node : Type 0) : Type 0 where
  pub exec : (dsn statement : String) → M W (Unit {0})
  pub query : (dsn statement : String) → W → Result (List (Dict (Option String)))
  pub scan_index : String → Option ℤ
  pub sort_by_index : (Node → ℤ) → List Node → List Node

pub record SqlExecutor : Type 0 where
  pub root_password : String
  pub fe_service_name : String
  pub fe_service_namespace : String
  pub fe_service_port : String
  pub ssl_mode : String

pub record ComputeNode : Type 0 where
  pub compute_node_id : String
  pub fqdn : String
  pub heartbeat_port : String
  pub warehouse_name : String
  pub index : ℤ

-- dsn
unfoldable pub dsn : SqlExecutor → String
unfolding ssl_mode_dsn_suffix
dsn e =
    "root:"
    <> e.root_password
    <> "@tcp("
    <> e.fe_service_name
    <> "."
    <> e.fe_service_namespace
    <> ":"
    <> e.fe_service_port
    <> ")/"
    <> ssl_mode_dsn_suffix e.ssl_mode

read_password : Result String → SqlExecutor → Result SqlExecutor
read_password (ok text) e = ok (record e { root_password = text })
read_password (err _) e = ok (record e { root_password = "" })
read_password (panic p) e = panic p

read_service_name : Result String → SqlExecutor → Result SqlExecutor
read_service_name (ok text) e = ok (record e { fe_service_name = text })
read_service_name (err f) e = err f
read_service_name (panic p) e = panic p

read_service_port : Result String → SqlExecutor → Result SqlExecutor
read_service_port (ok text) e = ok (record e { fe_service_port = text })
read_service_port (err f) e = err f
read_service_port (panic p) e = panic p

abbrev then_read : {A B : Type 0} → Result A → (A → Result B) → Result B
then_read (ok a) f = f a
then_read (err e) f = err e
then_read (panic p) f = panic p

module _ (c : Client) (settings : Settings) (w : c.World) where
  read_env : (namespace : String) → EnvVar → SqlExecutor → Result SqlExecutor
  unfolding read_password read_service_name read_service_port get_env_var_value
  read_env namespace env e =
      if env.name == "MYSQL_PWD"
      then read_password (get_env_var_value c w namespace env) e
      else if env.name == "FE_SERVICE_NAME"
      then read_service_name (get_env_var_value c w namespace env) e
      else if env.name == "FE_QUERY_PORT"
      then read_service_port (get_env_var_value c w namespace env) e
      else ok e

  read_envs : (namespace : String) → List EnvVar → SqlExecutor → Result SqlExecutor
  unfolding read_env
  read_envs namespace [] e = ok e
  read_envs namespace (env ∷ envs) e =
      then_read (read_env namespace env e) (read_envs namespace envs)

  executor_of : (namespace : String) → List Container → Result SqlExecutor
  unfolding read_envs
  executor_of namespace [] = panic "index out of range"
  executor_of namespace (container ∷ _) = read_envs namespace container.env (record {
    root_password = "";
    fe_service_name = "";
    fe_service_namespace = namespace;
    fe_service_port = "";
    ssl_mode = settings.fe_ssl_mode;
  })

  -- NewSQLExecutor
  unfoldable pub new_sql_executor : (namespace cn_sts_name : String) → Result SqlExecutor
  unfolding executor_of
  new_sql_executor namespace cn_sts_name =
      then_read (c.statefulsets.get (record { namespace = namespace; name = cn_sts_name }) w)
        (λ sts. executor_of namespace sts.spec.template.spec.containers)

module _ {W : Type 0} (sql : Sql W ComputeNode) where
  set_index : ComputeNode → (fqdn : String) → Option ℤ → Result ComputeNode
  set_index node fqdn none = err (failure ("failed to parse index from FQDN " <> fqdn))
  set_index node fqdn (some index) = ok (record node { fqdn = fqdn; index = index })

  -- The index of kube-starrocks-cn-2.kube-starrocks-cn-search… is 2.
  index_text : (fqdn : String) → String
  unfolding split
  index_text fqdn = last_or "" (split b'-' (head_or "" (split b'.' fqdn)))

  -- string(value.([]byte)), which panics on a NULL
  bytes : Option String → Result String
  bytes none = panic "interface conversion: interface {} is nil, not []uint8"
  bytes (some text) = ok text

  read_columns : Dict (Option String) → ComputeNode → Result ComputeNode
  unfolding set_index index_text bytes
  read_columns [] node = ok node
  read_columns ((column, value) ∷ columns) node =
      then_read
        (if column == "ComputeNodeId"
          then then_read (bytes value) (λ id. ok (record node { compute_node_id = id }))
          else if column == "IP"
          then then_read (bytes value)
              (λ fqdn. set_index node fqdn (sql.scan_index (index_text fqdn)))
          else if column == "HeartbeatPort"
          then then_read (bytes value) (λ port. ok (record node { heartbeat_port = port }))
          else if column == "WarehouseName"
          then then_read (bytes value) (λ name. ok (record node { warehouse_name = name }))
          else ok node)
        (read_columns columns)

  read_rows : List (Dict (Option String)) → Result (List ComputeNode)
  unfolding read_columns
  read_rows [] = ok []
  read_rows (row ∷ rows) =
      let rest = read_rows rows in
      then_read
        (read_columns row (record {
          compute_node_id = "";
          fqdn = "";
          heartbeat_port = "";
          warehouse_name = "";
          index = pos 0;
        }))
        (λ node. then_read rest (λ nodes. ok (node ∷ nodes)))

  nodes_of : (warehouse : String) → List ComputeNode → List ComputeNode
  nodes_of warehouse [] = []
  nodes_of warehouse (node ∷ nodes) =
      let rest = nodes_of warehouse nodes in
      if node.warehouse_name == warehouse then node ∷ rest else rest

  -- QueryShowComputeNodes, and the entry of a warehouse in its result
  unfoldable pub query_show_compute_nodes : SqlExecutor → W → Result (String → List ComputeNode)
  unfolding dsn read_rows nodes_of
  query_show_compute_nodes e w = then_read (sql.query (dsn e) "SHOW COMPUTE NODES" w) (λ rows.
      then_read (read_rows rows)
        (λ nodes. ok (λ warehouse. sql.sort_by_index (λ n. n.index) (nodes_of warehouse nodes))))

  unfoldable pub drop_statement : ComputeNode → String
  drop_statement n =
      "ALTER SYSTEM DROP COMPUTE NODE \"" <> n.fqdn <> ":" <> n.heartbeat_port
      <> "\" FROM WAREHOUSE " <> n.warehouse_name

  -- ExecuteDropComputeNode
  unfoldable pub execute_drop_compute_node : SqlExecutor → ComputeNode → M W (Unit {0})
  unfolding drop_statement dsn
  execute_drop_compute_node e node = sql.exec (dsn e) (drop_statement node)

  -- ExecuteDropWarehouse
  unfoldable pub execute_drop_warehouse : SqlExecutor → (warehouse : String) → M W (Unit {0})
  unfolding dsn warehouse_name_in_fe
  execute_drop_warehouse e warehouse =
      sql.exec (dsn e) ("DROP WAREHOUSE " <> warehouse_name_in_fe warehouse)

  -- The loop that drops the nodes, the last one first.
  unfoldable pub drop_nodes : SqlExecutor → List ComputeNode → M W (Unit {0})
  unfolding execute_drop_compute_node
  drop_nodes e [] = pure tt
  drop_nodes e (node ∷ nodes) = drop_nodes e nodes >> execute_drop_compute_node e node

-- A pod that the stateful set's update revision has not made.
pub is_old : (update_revision : String) → Pod → Bool
unfolding get_text
is_old revision pod =
    let label = get_text "controller-revision-hash" pod.meta.labels in
    label == "" || not (label == revision)

check_revisions : (update_revision : String) → List Pod → Result (Unit {0})
unfolding is_old
check_revisions revision [] = ok tt
check_revisions revision (pod ∷ pods) =
    let rest = check_revisions revision pods in
    if is_old revision pod then err (sentinel err_hash_value_not_equal) else rest

module _ (c : Client) (settings : Settings) (sql : Sql c.World ComputeNode) where
  -- The comparisons before the FE is asked: the number of replicas of the expected set, or an error.
  unfoldable pub check_settled : (expect actual : StatefulSet) → List Pod → Result ℕ
  unfolding check_revisions statefulset_deep_equal
  check_settled expect actual pods =
      let replicas = or_else expect.spec.replicas (pos 1) in
      if not (eqz replicas (or_else actual.spec.replicas (pos 1)))
      then err (sentinel err_replicas_not_equal)
      else if not (statefulset_deep_equal c expect actual).1
      then err (sentinel err_hash_value_not_equal)
      else if not (eqz (pos (length pods)) replicas)
      then err (sentinel err_replicas_not_equal)
      else then_read (check_revisions actual.status.update_revision pods) (λ _. ok (length pods))

  -- The name of the warehouse whose nodes are compared.
  unfoldable pub fe_warehouse : StarRocksObject → String
  unfolding warehouse_name_in_fe
  fe_warehouse object =
      if object.is_warehouse_object
      then warehouse_name_in_fe object.meta.name
      else "default_warehouse"

  pub drop_surplus : StarRocksObject → (replicas : ℕ) → M c.World (Unit {0})
  unfolding new_sql_executor query_show_compute_nodes drop_nodes fe_warehouse cn_statefulset_name
  drop_surplus object replicas = do
    executor ←
        read (λ w. new_sql_executor c settings w object.meta.namespace (cn_statefulset_name object))
    nodes ← read (query_show_compute_nodes sql executor)
    drop_nodes sql executor (drop replicas (nodes (fe_warehouse object)))

  -- SyncComputeNodesInFE
  unfoldable pub sync_compute_nodes_in_fe :
      StarRocksObject → (expect actual : StatefulSet) → List Pod → M c.World (Unit {0})
  unfolding check_settled drop_surplus
  sync_compute_nodes_in_fe object expect actual pods = do
    replicas ← read (λ w. check_settled expect actual pods)
    drop_surplus object replicas
