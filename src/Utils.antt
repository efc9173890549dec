-- ===== src/Utils.antt =====
-- autoscaler/pkg/utils/constants.go, and the string constants of k8s.io/api/core/v1 that the code
-- names.
use kubto.Prelude.{ℕ, ◌*◌, String}

abbrev pub unschedulable_reason : String
unschedulable_reason = "Unschedulable"

abbrev pub insufficient_cpu_msg : String
insufficient_cpu_msg = "Insufficient cpu"

abbrev pub insufficient_memory_msg : String
insufficient_memory_msg = "Insufficient memory"

abbrev pub node_role_worker : String
node_role_worker = "node-role.kubernetes.io/worker"

abbrev pub annotation_managed_by : String
annotation_managed_by = "autoscaler.kuber-scale/managed-by"

abbrev pub annotation_scaled_at : String
annotation_scaled_at = "autoscaler.kuber-scale/scaled-at"

abbrev pub managed_by_value : String
managed_by_value = "kuber-scale-autoscaler"

abbrev pub default_cpu_threshold_millicores : ℕ
default_cpu_threshold_millicores = 500

abbrev pub default_memory_threshold_mib : ℕ
default_memory_threshold_mib = 256

abbrev pub default_max_nodes : ℕ
default_max_nodes = 5

abbrev pub default_min_nodes : ℕ
default_min_nodes = 1

-- time.Second, in nanoseconds.
abbrev pub second : ℕ
second = 1_000_000_000

abbrev pub default_drain_timeout_seconds : ℕ
default_drain_timeout_seconds = 120 * second

abbrev pub default_scale_up_cooldown : ℕ
default_scale_up_cooldown = 60 * second

abbrev pub default_scale_down_cooldown : ℕ
default_scale_down_cooldown = 60 * second

abbrev pub pod_pending : String
pod_pending = "Pending"

abbrev pub pod_succeeded : String
pod_succeeded = "Succeeded"

abbrev pub pod_failed : String
pod_failed = "Failed"

abbrev pub pod_scheduled : String
pod_scheduled = "PodScheduled"

abbrev pub node_ready : String
node_ready = "Ready"

abbrev pub condition_true : String
condition_true = "True"

abbrev pub restart_always : String
restart_always = "Always"

abbrev pub no_schedule : String
no_schedule = "NoSchedule"

abbrev pub no_execute : String
no_execute = "NoExecute"

abbrev namespace_system : String
namespace_system = "kube-system"
