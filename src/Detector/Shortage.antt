-- ===== src/Detector/Shortage.antt =====
-- The pods that the detector passes on, and the shortage that it names for them.
use kubto.Prelude.{
  ◌≡◌, ◌↔◌, ◌⊎◌, inl, inr, true, List, [], ◌∷◌, str_eq_iff, Occurs, contains_iff, arith, Bool-cases,
}
use kubto.Utils.{pod_pending, unschedulable_reason, insufficient_cpu_msg, insufficient_memory_msg}
use kubto.Monitor.Types.{PodInfo}
use kubto.Detector.{
  shortage_none, shortage_both, classify_shortage, is_resource_unschedulable,
  detect_unschedulable_pods,
}

module _ {Q : Type 0} where
  -- The pod is pending, the scheduler gave it up, and its message names a missing resource.
  pub record IsShort (pod : PodInfo Q) : Type 0 where
    pub status : pod.status ≡ pod_pending
    pub reason : pod.condition_reason ≡ unschedulable_reason
    pub shortage :
        Occurs insufficient_cpu_msg pod.condition_message
        ⊎ Occurs insufficient_memory_msg pod.condition_message

  is_unschedulable-IsShort :
      (pod : PodInfo Q) → (is_resource_unschedulable pod ≡ true) ↔ IsShort pod
  unfolding is_resource_unschedulable
  is_unschedulable-IsShort pod = ground (
    arith,
    str_eq_iff pod.status pod_pending,
    str_eq_iff pod.condition_reason unschedulable_reason,
    contains_iff pod.condition_message insufficient_cpu_msg,
    contains_iff pod.condition_message insufficient_memory_msg,
  )

  -- `kept` holds the short pods of `pods`, in their order, and no other pod.
  pub data IsShortOf : List (PodInfo Q) → List (PodInfo Q) → Type 0 where
    nil : IsShortOf [] []
    keep :
        {pod : PodInfo Q} {pods kept : List (PodInfo Q)}
        → IsShort pod
        → IsShortOf pods kept
        → IsShortOf (pod ∷ pods) (pod ∷ kept)
    drop :
        {pod : PodInfo Q} {pods kept : List (PodInfo Q)}
        → ¬ IsShort pod
        → IsShortOf pods kept
        → IsShortOf (pod ∷ pods) kept

  -- The detector returns the pods that are pending, given up by the scheduler and short of CPU or
  -- memory by their message, each once for each time it is given, in the given order.
  pub detect-IsShortOf : (pods : List (PodInfo Q)) → IsShortOf pods (detect_unschedulable_pods pods)
  unfolding detect_unschedulable_pods
  detect-IsShortOf [] = IsShortOf.nil
  detect-IsShortOf (pod ∷ pods) = elim (Bool-cases (is_resource_unschedulable pod)) [
    | inl e ↦ rw e (IsShortOf.keep ((is_unschedulable-IsShort pod).0 e) (detect-IsShortOf pods))
    | inr e ↦ rw e (
        IsShortOf.drop (λ short. cc ((is_unschedulable-IsShort pod).1 short, e))
          (detect-IsShortOf pods))
  ]

  -- A pod is classified as short of nothing exactly when its message names neither resource, and as
  -- short of both exactly when it names both.
  classify_iff :
      (pod : PodInfo Q)
      → ((classify_shortage pod ≡ shortage_none) ↔ (
          (¬ Occurs insufficient_cpu_msg pod.condition_message)
          × (¬ Occurs insufficient_memory_msg pod.condition_message)))
        × ((classify_shortage pod ≡ shortage_both) ↔ (
            Occurs insufficient_cpu_msg pod.condition_message
            × Occurs insufficient_memory_msg pod.condition_message))
  unfolding classify_shortage
  classify_iff pod = ground (
    arith,
    contains_iff pod.condition_message insufficient_cpu_msg,
    contains_iff pod.condition_message insufficient_memory_msg,
  )
