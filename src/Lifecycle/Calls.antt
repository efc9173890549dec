-- ===== src/Lifecycle/Calls.antt =====
-- How many calls the search for idle nodes and a removal make: `FindIdleNodes` and `RemoveNode` of
-- autoscaler/pkg/lifecycle/idle_detector.go, with `Drain` and `Cleanup`.
use kubto.Prelude.{
  ℕ, zero, suc, ◌+◌, ◌≤◌, ◌≡◌, Option-cases, Bool-cases, inl, inr, Bool, true, false, Option, none,
  some, List, [], ◌∷◌, String, arith, length,
}
use kubto.Platform.{Quantity, Float64}
use kubto.Kube.{Pod}
use kubto.Monitor.Types.{NodeInfo}
use kubto.Lifecycle.Api.{Call, History, Env}
use kubto.Lifecycle.Idle.{is_underused, node_has_workload_pods, find_idle_nodes}
use kubto.Lifecycle.Drain.{
  should_skip, evict_pod, evict_all, all_gone, poll_rounds, poll, wait_for_pods_gone, drain,
}
use kubto.Lifecycle.Removal.{
  RemoveError, is_managed, run_hook, after_delete, cleanup, cordon, remove_kind_container,
  finish_removal, after_drain, after_cordon, remove_node,
}

-- No answer of the API lists more than `m` pods of this node.
abbrev pub ListsAtMost : {Q : Type 0} → ℕ → Env Q → String → Type 0
ListsAtMost {Q} m env name =
    (h : History Q) (pods : List (Pod Q)) → env.list_pods h name ≡ some pods → length pods ≤ m

module _ {Q : Type 0} (env : Env Q) (name : String) where
  evict_all-calls :
      (pods : List (Pod Q)) (h : History Q) → length (evict_all env pods h) ≤ length h + length pods
  unfolding evict_all evict_pod
  evict_all-calls [] h = omega arith
  evict_all-calls (pod ∷ pods) h = elim (Bool-cases (should_skip pod)) [
    | inl e ↦ rw e (omega (arith, evict_all-calls pods h))
    | inr e ↦ rw e (omega (arith, evict_all-calls pods (evict_pod env pod h).1))
  ]

  -- A poll makes one call in each of its rounds at most.
  poll-calls : (rounds : ℕ) (h : History Q) → length (poll rounds env name h).1 ≤ length h + rounds
  unfolding poll
  poll-calls zero h = omega arith
  poll-calls (suc rounds) h =
      let after = Call.listed_pods name (env.list_pods h name) ∷ h in
      let rest = poll-calls rounds after in
      elim (Bool-cases (all_gone (env.list_pods h name))) [
        | inl gone ↦ rw gone (omega arith)
        | inr left ↦ elim (Bool-cases (env.is_cancelled after)) [
          | inl over ↦ rw (left, over) (omega arith)
          | inr on ↦ rw (left, on) (omega (arith, rest))
        ]
      ]

  cordon-calls : (h : History Q) → length (cordon env name h).1 ≤ length h + 2
  unfolding cordon
  cordon-calls h = elim (Option-cases (env.get_node h name)) [
    | inl e ↦ rw (e, cordon) (omega arith)
    | inr (node, e) ↦ elim (Bool-cases node.unschedulable) [
      | inl u ↦ rw (e, u, cordon) (omega arith)
      | inr u ↦ rw (e, u, cordon) (omega arith)
    ]
  ]

  run_hook-calls : (h : History Q) → length (run_hook env name h) ≤ length h + 1
  unfolding run_hook
  run_hook-calls h = elim (Option-cases env.cleanup_hook) [
    | inl e ↦ rw (e, run_hook) (omega arith)
    | inr (hook, e) ↦ rw (e, run_hook) (omega arith)
  ]

  after_delete-calls :
      (fine : Bool) (h : History Q) → length (after_delete env name fine h).1 ≤ length h + 1
  after_delete-calls true h = run_hook-calls h
  after_delete-calls false h = omega arith

  cleanup-calls : (h : History Q) → length (cleanup env name h).1 ≤ length h + 3
  unfolding cleanup
  cleanup-calls h = elim (Option-cases (env.get_node h name)) [
    | inl e ↦ rw (e, cleanup) (omega arith)
    | inr (node, e) ↦ elim (Bool-cases (is_managed node)) [
      | inr m ↦ rw (e, cleanup, m) (omega arith)
      | inl m ↦
          let got = Call.got_node name (env.get_node h name) ∷ h in
          let fine = env.delete_node got name in
          rw (e, cleanup, m)
            (omega (arith, after_delete-calls fine (Call.deleted_node name fine ∷ got)))
    ]
  ]

  finish-calls :
      (r : Option RemoveError × History Q) → length (finish_removal env name r).1 ≤ length r.1 + 1
  unfolding finish_removal remove_kind_container
  finish-calls (some e, h) = omega arith
  finish-calls (none, h) = omega arith

  after_drain-calls : (r : Bool × History Q) → length (after_drain env name r).1 ≤ length r.1 + 4
  unfolding after_drain
  after_drain-calls (false, h) = omega arith
  after_drain-calls (true, h) = omega (arith, cleanup-calls h, finish-calls (cleanup env name h))

  module _ (m : ℕ) (few : ListsAtMost m env name) where
    drain-calls : (h : History Q) → length (drain env name h).1 ≤ length h + (m + 26)
    unfolding drain wait_for_pods_gone
    drain-calls h = elim (Option-cases (env.list_pods h name)) [
      | inl e ↦ rw (e, drain) (omega arith)
      | inr (pods, e) ↦
          let listed = Call.listed_pods name (env.list_pods h name) ∷ h in
          rw (e, drain, wait_for_pods_gone)
            (omega (
              arith,
              few h pods e,
              evict_all-calls pods listed,
              poll-calls poll_rounds (evict_all env pods listed),
            ))
    ]

    after_cordon-calls :
        (r : Option RemoveError × History Q)
        → length (after_cordon env name r).1 ≤ length r.1 + (m + 30)
    unfolding after_cordon
    after_cordon-calls (some e, h) = omega arith
    after_cordon-calls (none, h) =
        omega (arith, drain-calls h, after_drain-calls (drain env name h))

    -- A removal ends: where no list of the node's pods is longer than `m`, it makes at most
    -- `m + 32` calls, whatever they answer and whichever waits are cut short.
    pub remove_node-calls :
        (h : History Q) → length (remove_node env name h).1 ≤ length h + (m + 32)
    unfolding remove_node
    remove_node-calls h = omega (arith, cordon-calls h, after_cordon-calls (cordon env name h))

module _ {Q F : Type 0} ⦃q : Quantity Q⦄ (fl : Float64 F) (threshold : F) (env : Env Q) where
  -- The search makes at most one call for each node.
  pub find_idle-calls :
      (ns : List (NodeInfo Q)) (h : History Q)
      → length (find_idle_nodes fl threshold env ns h).1 ≤ length h + length ns
  unfolding find_idle_nodes node_has_workload_pods
  find_idle-calls [] h = omega arith
  find_idle-calls (n ∷ ns) h = elim (Bool-cases (is_underused fl threshold n)) [
    | inl u ↦ rw u (omega (arith, find_idle-calls ns (node_has_workload_pods env n.name h).1))
    | inr u ↦ rw u (omega (arith, find_idle-calls ns h))
  ]
