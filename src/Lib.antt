-- ===== src/Lib.antt =====
-- The StarRocks Kubernetes operator: a verification library of its Go code.
--
-- The operator watches two custom resources, StarRocksCluster and StarRocksWarehouse. A reconciler
-- (pkg/controllers) reads the resource and hands it to its sub-controllers (pkg/subcontrollers): for
-- a cluster those of FE, BE, CN and the FE proxy in this order, for a warehouse that of CN. A
-- sub-controller builds the stateful sets and services of its component from the specification
-- (pkg/k8sutils/templates, pkg/common/resource_utils), applies them to the API server
-- (pkg/k8sutils), and works out the component's status. A filter (pkg/predicates) decides on which
-- events the reconcilers run.
--
-- Files and the code that they model:
--   Base            numbers, texts, maps and results that the other parts share
--   Kube            the objects of the Kubernetes API that the program reads and writes, and the
--                   client of controller-runtime, as a record of operations
--   Api             pkg/apis/starrocks/v1: the resources, their getters and validations
--   K8sutils        pkg/k8sutils/k8sutils.go and pkg/common/resource_utils: create, apply, patch,
--                   delete, configuration, services, volumes, merging of metadata, autoscalers,
--                   the version of the server
--   Templates       pkg/k8sutils/templates and pkg/k8sutils/load: roll outs, pods and their
--                   environment, probes, mounts, versions, names, stateful sets and deployments
--   Controllers     pkg/controllers and pkg/predicates: the two reconcilers and the event filter
--   Subcontrollers  pkg/subcontrollers: the pod templates, SyncCluster, status and deletion of FE, BE,
--                   CN and FE proxy; disaster recovery of the FE; the compute nodes, the SQL
--                   connection, the autoscaler and the warehouses of the CN. Instances gives the
--                   reconcilers the lists of sub-controllers that pkg/controllers/controllers.go makes
--   Scripts         scripts/migrate-chart-value: the tool that takes a values.yaml from one format of
--                   the chart to the other
--   Tests           concrete objects, and the statements of the library applied to them
--
-- State and errors. What a call acts on is the type World of the Client record, of which nothing is
-- assumed; a call that writes is a function World -> Result A * World, a call that reads a function
-- World -> Result A. A Result is a value, an error or a panic. A Go object that a function changes in
-- place is an argument and a part of the result: a reconcile carries the cluster at hand beside the
-- world (Controllers.Cluster.Local), and an error keeps what has been written to it. Within one
-- reconcile no other writer is modelled. A theorem that needs more of the API server or of the FE
-- names it as a hypothesis: StoresServices in K8sutils.Apply.Twice (a created service is found again
-- with the recorded hash), StoresHpa in Subcontrollers.Cn.AutoScaler.Laws (an updated autoscaler is),
-- Ledger in Subcontrollers.Cn.ComputeNodes.Laws (the FE records what it executes), Sorts in
-- Subcontrollers.Cn.ComputeNodes.Order (sort.Slice orders the elements that it is given); each has
-- an instance in Tests.
--
-- Numbers. An int32 or int64 is an integer; where the code adds or subtracts int32 values the
-- wrap-around is written out (Base.Int.wrap32). Every loop of the code runs over a list and is a
-- structural recursion: no fuel is used.
--
-- Parameters. The hash of an object, the three-way merge, the JSON encoding, viper,
-- resource.MustParse, the MySQL driver, Sscanf, sort.Slice, the HTTP client, the text of a label
-- selector, the clock and the retry on conflict are fields of the records Client, Sql, Http and
-- Services; the YAML library of the script is the record Yaml. Command line flags, the Kubernetes
-- version and KUBE_STARROCKS_UNSUPPORTED_ENVS are the record Settings. Values that the program
-- only passes on (affinities, tolerations, resources, metrics) are opaque.
--
-- Not modelled: how GetKubernetesVersion asks the API server; the field addEnvForWarehouse, which
-- only tests set; the controller flags of an owner reference; logs and events; the set-up of the
-- manager; generated and vendored code, charts and the other scripts.
pub mod Base
pub mod Kube
pub mod Api
pub mod K8sutils
pub mod Templates
pub mod Controllers
pub mod Scripts
pub mod Subcontrollers
pub mod Tests
