-- ===== src/Lib.antt =====
-- kubto: a node autoscaler for Kubernetes, written in Go (autoscaler/ in the repository).
--
-- Informers keep a picture of the cluster (`ClusterState`). At each tick the controller asks the
-- detector which pending pods lack resources. If there are any, the estimator packs them onto the
-- free capacity and onto simulated new nodes, the policy turns the shortfall into a decision, and
-- the provisioner creates nodes. If there are none, the lifecycle manager looks for idle nodes and
-- removes the first one.
--
-- The files, and the code that each models (paths below autoscaler/pkg/):
--   Prelude (Tests, Lists, Texts, Int64, Time): shared names; Go's int64, strings, maps and times.
--   Platform: `resource.Quantity` and float64, as interfaces that the definitions take.
--   Kube: the Kubernetes objects, with the fields that the code reads.
--   Utils: utils/constants.go.
--   Monitor/Types, Monitor/Cluster: monitor/cluster_state.go (`ClusterState`, its writers `set_pods`,
--     `set_nodes`, `update_node`, `remove_node`, its totals). Children: Usage, Totals.
--   Monitor/Arrays, Monitor/Sharing: the same file with the arrays behind its slices, which the
--     getters copy and the writers change in place. Children: Filter, Writers, Snapshots.
--   Monitor/PodResources: monitor/pod_resources.go (`podEffectiveRequests`). Child: Effective.
--   Monitor/Watchers: monitor/pod_watcher.go and monitor/node_watcher.go; `handle` is one call of a
--     handler of an informer. Children: Invariant, and Latest with Sorted.
--   Monitor/Informers: `NewPodWatcher` and `NewNodeWatcher`; the informers' cache is a parameter.
--     Child: Live. Monitor/Copies: `copyStringMap` and `copyTolerations` of monitor/pod_resources.go.
--   Detector: detector/unschedulable_detector.go. Child: Shortage.
--   Estimator (Constraints, Bins, Packing, Estimate): estimator/resource_estimator.go.
--     `estimate_detailed` is `EstimateDetailed`; its step 1 is `candidates_of`, step 2 `categorize`,
--     step 4 `pack` (a pod's branch is `choose`, its effect `commit`, the search `best_fit`), and
--     step 5 `shortfall`. Packing/Trace lists what the loop did with each pod, Packing/Allowed and
--     Packing/Merging say where pods go and when nodes are opened, and Estimate/Plan sums this up.
--   Decision: decision/scaling_policy.go and decision/decision_engine.go (`evaluate`, `decide`,
--     `ceil_div`). Children: Division, Bounds, Cases, and Engine with the constructor.
--   Lifecycle (Drain, Idle, Removal): lifecycle/node_drain.go, lifecycle/idle_detector.go and
--     lifecycle/node_cleanup.go. Lifecycle/Api has the calls of the API with the environment that
--     answers them. Safety, Effects, Evictions, IdleNodes, Unmanaged, Progress and Calls are about
--     them; Manager has the constructors.
--   Provisioner: the interface of provisioner/node_provisioner.go. Provisioner/Fake is
--     provisioner/fake_provisioner.go, whose overlapping calls are the steps of Fake/Overlap;
--     Provisioner/Kind is the Kind provisioner, step by step, in the error monad of Kind/Api.
--     Children of Kind: Containers, Calls, Ready, Instance, and Marks, which goes on to the removal.
--   Controller (Metrics, Scaling, Reconcile, Loop): metrics/metrics.go and
--     controller/autoscaler_controller.go. `reconcile` is one iteration, `handle_scale_up` and
--     `handle_scale_down` its handlers, and `Step` is `Run` with the lock of `reconcile`. A `Course`
--     has the events of the informers between the reads of one iteration, and Seen the states that
--     the reads find. About them: Backoff, Provisioning, Rounds, Ignored, Limits, Containers, Keeps,
--     Calls, Agreement, Advance, Cooldown, Pauses, Measures, Loop/Invariant and Loop/Waiting. Wiring
--     is what `NewAutoscalerController` makes. Metrics/Collectors is `NewMetrics` and `Default`.
--   Command: autoscaler/cmd/main.go (`main`, `build_config`). Child: Exits.
--   Tests: concrete inputs.
--
-- State is passed explicitly. A call of the API or of `docker` is answered by an environment, which
-- is an arbitrary function of the calls before, and is recorded in a history. `NodeProvisioner` is an
-- interface on a state of its own; a theorem about the controller holds for each implementation.
-- The clock is read where an instant stands as an argument.
--
-- Bounds: an integer of Go is a 64-bit pattern and each operation wraps, as written in Prelude/Int64;
-- a theorem that needs a range says so. Loops over slices recur on the list, the provisioning loop on
-- its count. Polls recur on a number of rounds: 25 for the drain (120 s at 5 s, and the first), 101
-- for the Kind provisioner (5 min at 3 s, and the first), which is all that the timeout leaves time
-- for; a context that ends earlier is an answer of the environment. Decimal digits recur on the
-- number itself, plus one.
--
-- Not modelled: the informers' caches and the goroutines of the HTTP server, log lines, the wording
-- of the estimator's reasons and explanations (they are values), and the mutexes but that of
-- `reconcile` and, where calls overlap, that of the fake provisioner. `sort.Slice` is a function that
-- permutes. Prometheus' registry is a parameter with the documented behaviour of `Register`. The list
-- calls of the checker of critical pods, which only the policy makes, are not in the history. The
-- informers' events come between the reads of an iteration, and before or after it: nothing else in
-- an iteration looks at the cluster state. The body of an iteration is one step of `Step`, so the
-- states in which the count of nodes in flight is raised, while `CreateNode` runs, are not among
-- those that `Step` reaches; nothing else reads that count. Metrics are numbers without a bound.
pub mod Prelude
pub mod Platform
pub mod Kube
pub mod Utils
pub mod Monitor
pub mod Estimator
pub mod Decision
pub mod Detector
pub mod Lifecycle
pub mod Provisioner
pub mod Controller
pub mod Command
pub mod Tests
