-- ===== src/Tests/Estimates.antt =====
-- The theorems on the estimator at concrete inputs.
use kubto.Prelude.{
  ℕ, String, abs64, add64, sub64, div64, lt64, le64, ◌+◌, ◌%◌, ◌^◌, ◌≡◌, refl, false, none, some,
  List, [], ◌∷◌, All, arith,
}
use kubto.Kube.{Taint}
use kubto.Monitor.Types.{PodInfo}
use kubto.Estimator.Constraints.{selector_matches, taints_tolerated, can_pod_fit_constraints}
use kubto.Estimator.Bins.{
  SimulatedNode, PodCandidate, can_hold, remaining_after, best_fit, search_from, improve,
  take_capacity,
}
use kubto.Estimator.Bins.BestFit.{IsBin, IsRequest}
use kubto.Estimator.Packing.{Packing, choose, new_resource_estimator, new_node, commit, pack}
use kubto.Estimator.Packing.Trace.{
  cpu, mem, capacity, IsTemplate, IsInRange, free_at, room_at, held, on_existing_bin, on_new_bin,
  on_any_new,
}
use kubto.Estimator.Packing.Choice.{Chosen, choose-Chosen}
use kubto.Estimator.Estimate.{
  candidates_of, report_of, estimate_detailed, packed, categorize, keep_pod, candidate_of, score_of,
  note_pod, start, bins_of, bin_of,
}
use kubto.Estimator.Estimate.Deficit.{amount}
use kubto.Estimator.Estimate.Guarantees.{
  IsSized, IsAsking, nodes_of, final, entries, existing_within_free, new_within_template,
  delta-held,
}
use kubto.Estimator.Estimate.Coverage.{Reported, pods-Reported}
use kubto.Tests.Instances.{
  Fraction, fractions, sorter, sorter-IsSorter, natural, insertion_sort, insert_by,
}
use kubto.Decision.{decide}
use kubto.Controller.Reconcile.{capped}
use kubto.Controller.Agreement.{IsAffordable}
use kubto.Controller.Metrics.{new_metrics}
use kubto.Controller.Wiring.{Subsystems, wire, wired-capped}
use kubto.Tests.Fixtures.{waiting_pod, half_used, two_pods}

pub default-IsTemplate : IsTemplate new_resource_estimator
unfolding new_resource_estimator
default-IsTemplate = record { cpu = omega arith; mem = omega arith }

pub nodes-IsSized : All IsSized (nodes_of (some half_used))
nodes-IsSized = (
  record { cpu = omega arith; mem = omega arith; used_cpu = omega arith; used_mem = omega arith },
  tt,
)

pub pods-IsAsking : All IsAsking two_pods
pods-IsAsking = (
  record { cpu = omega arith; mem = omega arith },
  (record { cpu = omega arith; mem = omega arith }, tt),
)

existing_within_free_example :
    free_at cpu
        (final fractions sorter new_resource_estimator (some half_used) two_pods).candidates
        0
      + held cpu
          (on_existing_bin 0)
          (entries fractions sorter new_resource_estimator (some half_used) two_pods)
    ≡ free_at cpu (candidates_of (some half_used)) 0
existing_within_free_example =
    existing_within_free fractions sorter new_resource_estimator (some half_used) two_pods
      sorter-IsSorter default-IsTemplate nodes-IsSized pods-IsAsking cpu 0

new_within_template_example :
    room_at mem new_resource_estimator
        (final fractions sorter new_resource_estimator (some half_used) two_pods).open_new_nodes
        0
      + held mem
          (on_new_bin 0)
          (entries fractions sorter new_resource_estimator (some half_used) two_pods)
    ≡ capacity mem new_resource_estimator
new_within_template_example =
    new_within_template fractions sorter new_resource_estimator (some half_used) two_pods
      sorter-IsSorter default-IsTemplate nodes-IsSized pods-IsAsking mem 0

delta-held_example :
    amount cpu
      (report_of new_resource_estimator
        (final fractions sorter new_resource_estimator (some half_used) two_pods)).delta
    ≡ held cpu on_any_new
        (entries fractions sorter new_resource_estimator (some half_used) two_pods)
      % 2 ^ 64
delta-held_example =
    delta-held fractions sorter new_resource_estimator (some half_used) two_pods sorter-IsSorter
      default-IsTemplate nodes-IsSized pods-IsAsking cpu

pods-Reported_example :
    let report =
      estimate_detailed fractions sorter new_resource_estimator (some half_used) two_pods in
    All (λ p. Reported report.placed_pods report.infeasible_pods p.name) two_pods
pods-Reported_example =
    pods-Reported fractions new_resource_estimator sorter sorter-IsSorter (some half_used) two_pods

abbrev small_pod : PodCandidate ℕ Fraction
small_pod = record {
  info = waiting_pod "small" 700 2000;
  cpu_milli = 700;
  mem_bytes = 2000;
  score = (700, 2000);
}

abbrev bin : String → ℕ → SimulatedNode
bin name free_cpu = record {
  name = name;
  is_new = false;
  free_cpu = free_cpu;
  free_mem = 8_000_000;
  labels = none;
  taints = [];
}

abbrev three_bins : List SimulatedNode
three_bins = bin "tight" 600 ∷ bin "roomy" 1900 ∷ bin "snug" 800 ∷ []

three_bins-IsBin : All IsBin three_bins
three_bins-IsBin = (
  record { cpu = omega arith; mem = omega arith },
  (
    record { cpu = omega arith; mem = omega arith },
    (record { cpu = omega arith; mem = omega arith }, tt),
  ),
)

small_pod-IsRequest : IsRequest small_pod
small_pod-IsRequest = record { cpu = omega arith; mem = omega arith }

-- The last of the three bins is the one that is left with the least.
best_fit_of_three : best_fit small_pod three_bins ≡ some 2
unfolding best_fit can_hold remaining_after can_pod_fit_constraints selector_matches
    taints_tolerated le64 add64 sub64 div64 abs64 lt64
best_fit_of_three = refl

abbrev three_candidates : Packing
three_candidates = record {
  candidates = three_bins;
  open_new_nodes = [];
  consumed_existing_cpu = 0;
  consumed_existing_mem = 0;
  placed_pods = [];
  infeasible_pods = [];
  explanations = [];
}

three_candidates-IsInRange : IsInRange three_candidates
three_candidates-IsInRange = record { candidates = three_bins-IsBin; open_new_nodes = tt }

choose-Chosen_example :
    Chosen new_resource_estimator three_candidates small_pod
      (choose new_resource_estimator three_candidates small_pod)
choose-Chosen_example =
    choose-Chosen new_resource_estimator default-IsTemplate three_candidates small_pod
      three_candidates-IsInRange small_pod-IsRequest

abbrev dedicated : List Taint
dedicated = record { key = "dedicated"; value = "gpu"; effect = "NoSchedule" } ∷ []

abbrev gpu_pod : PodInfo ℕ
gpu_pod = record (waiting_pod "gpu" 100 100) {
  node_selector = ("zone", "a") ∷ [];
  tolerations = record { key = "dedicated"; operator = "Equal"; value = "gpu"; effect = "" } ∷ [];
}

abbrev wired : Subsystems ℕ Fraction
wired = wire ℕ fractions new_metrics (λ name. false)

one_needed :
    (estimate_detailed fractions sorter wired.estimator (some half_used) two_pods).nodes_needed ≡ 1
unfolding wire estimate_detailed packed categorize keep_pod candidate_of score_of note_pod pack
    choose commit new_node insertion_sort insert_by start candidates_of bins_of bin_of best_fit
    search_from improve can_hold remaining_after take_capacity can_pod_fit_constraints
    selector_matches taints_tolerated new_resource_estimator le64 add64 sub64 div64 abs64 lt64
one_needed = refl

one-IsAffordable : IsAffordable wired.estimator 1
unfolding wire new_resource_estimator
one-IsAffordable = (omega arith, omega arith)

wired-capped_example :
    let report = estimate_detailed fractions sorter wired.estimator (some half_used) two_pods in
    capped (decide fractions wired.policy 0 report.delta half_used) report
    ≡ decide fractions wired.policy 0 report.delta half_used
wired-capped_example =
    wired-capped ℕ fractions new_metrics (λ name. false) sorter half_used two_pods 0 half_used
      sorter-IsSorter nodes-IsSized pods-IsAsking (rw one_needed one-IsAffordable)
      (rw one_needed (omega arith)) (omega arith)
