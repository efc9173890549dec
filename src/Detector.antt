-- ===== src/Detector.antt =====
-- autoscaler/pkg/detector/unschedulable_detector.go
pub mod Shortage
use kubto.Prelude.{
  Bool, true, false, not, ◌&&◌, ◌||◌, List, String, str_eq, contains, select, if◌then◌else◌,
}
use kubto.Utils.{pod_pending, unschedulable_reason, insufficient_cpu_msg, insufficient_memory_msg}
use kubto.Monitor.Types.{PodInfo}

pub data ShortageType : Type 0 where
  shortage_none shortage_cpu shortage_memory shortage_both : ShortageType

to_string : ShortageType → String
to_string shortage_cpu = "CPU"
to_string shortage_memory = "Memory"
to_string shortage_both = "CPU+Memory"
to_string shortage_none = "None"

module _ {Q : Type 0} where
  unfoldable pub classify_shortage : PodInfo Q → ShortageType
  classify_shortage pod =
      let has_cpu = contains pod.condition_message insufficient_cpu_msg in
      let has_mem = contains pod.condition_message insufficient_memory_msg in
      if has_cpu && has_mem
      then shortage_both
      else if has_cpu
      then shortage_cpu
      else if has_mem
      then shortage_memory
      else shortage_none

  unfoldable pub is_resource_unschedulable : PodInfo Q → Bool
  is_resource_unschedulable pod =
      if not (str_eq pod.status pod_pending)
      then false
      else if not (str_eq pod.condition_reason unschedulable_reason)
      then false
      else contains pod.condition_message insufficient_cpu_msg
        || contains pod.condition_message insufficient_memory_msg

  unfoldable pub detect_unschedulable_pods : List (PodInfo Q) → List (PodInfo Q)
  unfolding is_resource_unschedulable
  detect_unschedulable_pods = select is_resource_unschedulable
