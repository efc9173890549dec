-- ===== src/Tests/Plans.antt =====
-- The theorems on the plan behind an estimate at concrete inputs.
use kubto.Prelude.{
  ℕ, ◌+◌, ◌*◌, ◌≤◌, ◌<◌, ◌≡◌, refl, ◌⊎◌, none, some, List, [], ◌∷◌, length, map, All, arith, abs64,
  add64, sub64, div64, lt64, le64,
}
use kubto.Monitor.Types.{PodInfo}
use kubto.Estimator.Constraints.{selector_matches, taints_tolerated, can_pod_fit_constraints}
use kubto.Estimator.Bins.{can_hold, remaining_after, best_fit, search_from, improve, take_capacity}
use kubto.Estimator.Packing.{choose, new_resource_estimator, new_node, commit, pack}
use kubto.Estimator.Packing.Trace.{cpu, mem, capacity, on_new_bin, on_any_new, held}
use kubto.Estimator.Packing.Allowed.{host, Allowed}
use kubto.Estimator.Estimate.{
  candidates_of, report_of, packed, categorize, keep_pod, candidate_of, score_of, note_pod, start,
}
use kubto.Estimator.Estimate.Guarantees.{IsAsking, final, entries}
use kubto.Estimator.Estimate.Plan.{cannot_merge, new_nodes-le, packed-Allowed}
use kubto.Tests.Instances.{fractions, sorter, sorter-IsSorter, natural, insertion_sort, insert_by}
use kubto.Tests.Fixtures.{waiting_pod, half_used, two_pods}
use kubto.Tests.Estimates.{default-IsTemplate, nodes-IsSized, pods-IsAsking}

-- Each takes more than half of a node.
abbrev large_pods : List (PodInfo ℕ)
large_pods = waiting_pod "a" 1500 1000 ∷ waiting_pod "b" 1200 1000 ∷ []

large-IsAsking : All IsAsking large_pods
large-IsAsking = (
  record { cpu = omega arith; mem = omega arith },
  (record { cpu = omega arith; mem = omega arith }, tt),
)

two_opened :
    length (final fractions sorter new_resource_estimator none large_pods).open_new_nodes ≡ 2
unfolding packed categorize keep_pod candidate_of score_of note_pod pack choose commit new_node
    insertion_sort insert_by start candidates_of best_fit search_from improve can_hold
    remaining_after take_capacity can_pod_fit_constraints selector_matches taints_tolerated
    new_resource_estimator le64 add64 sub64 div64 abs64 lt64
two_opened = refl

cpu_held :
    held cpu on_any_new (entries fractions sorter new_resource_estimator none large_pods) ≡ 2700
unfolding packed categorize keep_pod candidate_of score_of note_pod pack choose commit new_node
    insertion_sort insert_by start candidates_of best_fit search_from improve can_hold
    remaining_after take_capacity can_pod_fit_constraints selector_matches taints_tolerated
    new_resource_estimator le64 add64 sub64 div64 abs64 lt64
cpu_held = refl

mem_held :
    held mem on_any_new (entries fractions sorter new_resource_estimator none large_pods) ≡ 2000
unfolding packed categorize keep_pod candidate_of score_of note_pod pack choose commit new_node
    insertion_sort insert_by start candidates_of best_fit search_from improve can_hold
    remaining_after take_capacity can_pod_fit_constraints selector_matches taints_tolerated
    new_resource_estimator le64 add64 sub64 div64 abs64 lt64
mem_held = refl

cannot_merge_example :
    let es = entries fractions sorter new_resource_estimator none large_pods in
    (capacity cpu new_resource_estimator < held cpu (on_new_bin 0) es + held cpu (on_new_bin 1) es)
    ⊎ (capacity mem new_resource_estimator
        < held mem (on_new_bin 0) es + held mem (on_new_bin 1) es)
cannot_merge_example =
    cannot_merge fractions sorter new_resource_estimator none large_pods sorter-IsSorter
      default-IsTemplate tt large-IsAsking 0 1 (omega arith) (omega (arith, two_opened))

template_capacity :
    (capacity cpu new_resource_estimator ≡ 2000)
    × (capacity mem new_resource_estimator ≡ 4_294_967_296)
unfolding new_resource_estimator
template_capacity = (refl, refl)

new_nodes-le_example :
    (report_of new_resource_estimator
        (final fractions sorter new_resource_estimator none large_pods)).nodes_needed
      + 3
    ≤ 4 * 2
new_nodes-le_example =
    new_nodes-le fractions sorter new_resource_estimator none large_pods sorter-IsSorter
      default-IsTemplate tt large-IsAsking 2 (omega arith)
      (omega (arith, cpu_held, template_capacity)) (omega (arith, mem_held, template_capacity))

packed-Allowed_example :
    All
      (Allowed new_resource_estimator (map host (candidates_of (some half_used))))
      (entries fractions sorter new_resource_estimator (some half_used) two_pods)
packed-Allowed_example =
    packed-Allowed fractions sorter new_resource_estimator (some half_used) two_pods sorter-IsSorter
      default-IsTemplate nodes-IsSized pods-IsAsking
