-- ===== src/Tests/Fixtures.antt =====
-- A small cluster, with environments that answer and a policy.
use kubto.Tests.Instances.{natural, Fraction}
use kubto.Prelude.{
  ℕ, ◌+◌, ◌*◌, Bool, true, false, none, some, Option, List, [], ◌∷◌, String, zero_time,
  if◌then◌else◌,
}
use kubto.Kube.{Pod, Node}
use kubto.Utils.{annotation_managed_by, managed_by_value, node_ready, condition_true}
use kubto.Provisioner.{NodeProvisioner}
use kubto.Provisioner.Fake.{FakeNodeProvisioner, fake_provisioner}
use kubto.Provisioner.Kind.Api.{KindEnv}
use kubto.Provisioner.Kind.{KindNodeProvisioner, default_kind_node_image}
use kubto.Lifecycle.Api.{Call, History, Env, evict_ok}
use kubto.Monitor.Types.{PodInfo, NodeInfo, ClusterState}
use kubto.Decision.{ThresholdPolicy}
use kubto.Controller.Scaling.{AutoscalerController}
use kubto.Controller.Reconcile.{Course}

abbrev pub waiting_pod : String → (cpu mem : ℕ) → PodInfo ℕ
waiting_pod name cpu mem = record {
  name = name;
  namespace = "default";
  cpu_request = cpu;
  memory_request = mem;
  status = "Pending";
  condition_reason = "Unschedulable";
  condition_message = "0/1 nodes are available: 1 Insufficient cpu.";
  node_name = "";
  node_selector = [];
  tolerations = [];
  has_unsupported_constraints = false;
  unsupported_reason = "";
}

abbrev pub running_pod : String → (cpu mem : ℕ) → String → PodInfo ℕ
running_pod name cpu mem node = record (waiting_pod name cpu mem) {
  status = "Running";
  node_name = node;
}

abbrev pub ready_node : String → (used_cpu used_mem : ℕ) → NodeInfo ℕ
ready_node name used_cpu used_mem = record {
  name = name;
  allocatable_cpu = 2000;
  allocatable_memory = 4_294_967_296;
  used_cpu = used_cpu;
  used_memory = used_mem;
  ready = true;
  unschedulable = false;
  created_at = 0;
  labels = some [];
  taints = [];
}

-- One node, half in use.
abbrev pub half_used : ClusterState ℕ
half_used = record {
  pending_pods = waiting_pod "big" 1800 1000 ∷ waiting_pod "small" 700 2000 ∷ [];
  scheduled_pods = running_pod "old" 1000 3000 "worker" ∷ [];
  nodes = ready_node "worker" 1000 3000 ∷ [];
}

abbrev pub two_pods : List (PodInfo ℕ)
two_pods = half_used.pending_pods

-- A pod and a node as the API hands them over.
abbrev pub api_pod : String → (phase node : String) → (cpu mem : ℕ) → Pod ℕ
api_pod name phase node cpu mem = record {
  name = name;
  namespace = "default";
  annotations = [];
  owner_kinds = "ReplicaSet" ∷ [];
  phase = phase;
  conditions = [];
  node_name = node;
  priority_class_name = "";
  containers =
      record { requests = ("cpu", cpu) ∷ ("memory", mem) ∷ []; restart_policy = none } ∷ [];
  init_containers =
      record { requests = ("cpu", 900) ∷ []; restart_policy = none }
      ∷ record { requests = ("cpu", 50) ∷ []; restart_policy = some "Always" }
      ∷ [];
  overhead = ("memory", 64) ∷ [];
  affinity = none;
  topology_spread_constraints = 0;
  node_selector = [];
  tolerations = [];
}

abbrev pub managed_node : String → Node ℕ
managed_node name = record {
  name = name;
  labels = none;
  annotations = (annotation_managed_by, managed_by_value) ∷ [];
  created_at = 0;
  taints = [];
  unschedulable = false;
  allocatable = ("cpu", 2000) ∷ ("memory", 4_294_967_296) ∷ [];
  conditions = record { type = node_ready; status = condition_true } ∷ [];
}

abbrev was_evicted : History ℕ → Bool
was_evicted [] = false
was_evicted (Call.evicted space name answer ∷ h) = true
was_evicted (_ ∷ h) = was_evicted h

-- The node as the API keeps it: as it was last written, until it is deleted.
abbrev pub shown : Node ℕ → History ℕ → Option (Node ℕ)
shown n [] = some n
shown n (Call.updated_node m true ∷ h) = some m
shown n (Call.deleted_node name true ∷ h) = none
shown n (_ ∷ h) = shown n h

-- Every call succeeds; the node has one pod until it is evicted.
abbrev pub obliging : Env ℕ
obliging = record {
  get_node = λ h name. shown (managed_node name) h;
  list_pods = λ h name. some (if was_evicted h then [] else api_pod "a" "Running" name 10 20 ∷ []);
  update_node = λ h n. true;
  evict = λ h space name. evict_ok;
  delete_node = λ h name. true;
  cleanup_hook = some (λ h name. true);
  remove_container = λ h name. true;
  is_cancelled = λ h. false;
}

abbrev pub policy : ThresholdPolicy Fraction
policy = record {
  cpu_threshold_millicores = 500;
  memory_threshold_bytes = 268_435_456;
  low_water_mark_percent = (20, 1);
  max_nodes = 5;
  min_nodes = 1;
  cooldown_period = 60_000_000_000;
  node_cpu_capacity_millicores = 2000;
  node_memory_capacity_bytes = 4_294_967_296;
  critical_pod_checker = some (λ name. false);
}

-- An hour after the zero time, and one minute apart. The informers are silent.
abbrev pub course : Course ℕ
course = record {
  policy_now = zero_time + 3600 * 1_000_000_000;
  check_now = zero_time + 3660 * 1_000_000_000;
  end_now = zero_time + 3720 * 1_000_000_000;
  before_pods = [];
  before_estimate = [];
  before_policy = [];
  before_handler = [];
  before_search = [];
}

-- Every command and call succeeds, and the node registers under the container's name.
abbrev pub healthy : KindEnv ℕ
healthy = record {
  docker = λ h args. (" kubeadm join ", true);
  list_nodes = λ h. some (managed_node "kind-worker-7" ∷ []);
  get_node = λ h name. some (managed_node name);
  update_node = λ h n. true;
  is_cancelled = λ h. false;
  unix_nano = λ h. 7;
  timestamp = λ h. "2024-01-01T00:00:00Z";
}

abbrev pub kind : KindNodeProvisioner
kind = record { cluster_name = "kind"; node_image = default_kind_node_image; network_name = "kind" }

abbrev pub controller : ClusterState ℕ → AutoscalerController ℕ
controller state = record {
  state = state;
  metrics = none;
  reconcile_interval = 10 * 1_000_000_000;
  scale_up_cooldown = 60 * 1_000_000_000;
  scale_down_cooldown = 60 * 1_000_000_000;
  last_scale_up = zero_time;
  last_scale_down = zero_time;
  in_flight_provisioning = 0;
  scale_up_failures = 0;
}

-- The fake provisioner, under a context that does not end.
abbrev pub steady_provisioner : NodeProvisioner FakeNodeProvisioner
steady_provisioner = fake_provisioner (λ f. none)
