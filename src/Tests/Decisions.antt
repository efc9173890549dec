-- ===== src/Tests/Decisions.antt =====
-- The theorems on the policy and on the detector at concrete inputs.
use kubto.Prelude.{ℕ, lt64, le64, sub_time, ◌+◌, ◌≡◌, refl, ◌⊎◌, true, [], ◌∷◌, length, arith}
use kubto.Monitor.Types.{ClusterState}
use kubto.Estimator.Packing.{ResourceDelta, is_zero}
use kubto.Decision.{
  exceeds_threshold, scale_down_candidate, is_candidate, utilisation, has_critical_pods, evaluate,
}
use kubto.Decision.Bounds.{Covers, scale_up-Covers}
use kubto.Detector.{detect_unschedulable_pods}
use kubto.Detector.Shortage.{IsShortOf, detect-IsShortOf}
use kubto.Tests.Instances.{fractions, natural}
use kubto.Tests.Fixtures.{policy, ready_node, half_used, two_pods}

abbrev short_of_cpu : ResourceDelta
short_of_cpu = record { cpu_millicores = 4500; memory_bytes = 3000 }

abbrev short_of_little : ResourceDelta
short_of_little = record { cpu_millicores = 500; memory_bytes = 3000 }

-- The clock is well past the cooldown.
abbrev later : ℕ
later = 100_000_000_000

abbrev idle_pair : ClusterState ℕ
idle_pair = record {
  pending_pods = [];
  scheduled_pods = [];
  nodes = ready_node "busy" 1000 3000 ∷ ready_node "idle" 100 3000 ∷ [];
}

scales_up : (evaluate fractions policy later short_of_cpu half_used).scale_up ≡ true
unfolding evaluate exceeds_threshold lt64 le64 is_zero
scales_up = refl

scales_down : (evaluate fractions policy later short_of_little idle_pair).scale_down ≡ true
unfolding evaluate exceeds_threshold lt64 le64 is_zero scale_down_candidate is_candidate utilisation
    has_critical_pods sub_time
scales_down = refl

scale_up-Covers_example :
    (length half_used.nodes + (evaluate fractions policy later short_of_cpu half_used).count ≡ 5)
    ⊎ Covers policy short_of_cpu (evaluate fractions policy later short_of_cpu half_used).count
scale_up-Covers_example =
    scale_up-Covers fractions policy later short_of_cpu half_used (omega arith) (omega arith)
      (record {
        cpu_capacity = omega arith;
        mem_capacity = omega arith;
        cpu = omega arith;
        mem = omega arith;
      })
      scales_up

detect-IsShortOf_example : IsShortOf two_pods (detect_unschedulable_pods two_pods)
detect-IsShortOf_example = detect-IsShortOf two_pods
