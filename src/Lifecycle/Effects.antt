-- ===== src/Lifecycle/Effects.antt =====
-- What a removal does in all: `RemoveNode` of autoscaler/pkg/lifecycle/idle_detector.go.
use kubto.Prelude.{
  ℕ, zero, suc, ◌+◌, ◌≡◌, Option-cases, Bool-cases, inl, inr, Bool, true, false, Option, none, some,
  List, [], ◌∷◌, String, arith,
}
use kubto.Kube.{Pod}
use kubto.Lifecycle.Api.{Call, History, Env}
use kubto.Lifecycle.Drain.{
  should_skip, evict_pod, evict_all, poll_rounds, poll, wait_for_pods_gone, drain,
}
use kubto.Lifecycle.Removal.{
  RemoveError, is_managed, run_hook, after_delete, cleanup, cordon, remove_kind_container,
  finish_removal, after_drain, after_cordon, remove_node,
}

abbrev pub is_ok : Option RemoveError → ℕ
is_ok none = 1
is_ok (some e) = 0

module _ {Q : Type 0} where
  -- How often a provider hook was run, and how often a node was deleted without an error.
  abbrev hook_runs : History Q → ℕ
  hook_runs [] = 0
  hook_runs (Call.ran_hook name ok ∷ h) = suc (hook_runs h)
  hook_runs (_ ∷ h) = hook_runs h

  abbrev pub deletions : History Q → ℕ
  deletions [] = 0
  deletions (Call.deleted_node name true ∷ h) = suc (deletions h)
  deletions (_ ∷ h) = deletions h

  -- `n` more deletions, and as many runs of the hook.
  abbrev pub Adds : ℕ → History Q → History Q → Type 0
  Adds n h k = (hook_runs k ≡ hook_runs h + n) × (deletions k ≡ deletions h + n)

  module _ (env : Env Q) (name : String) where
    evict_all-Adds : (pods : List (Pod Q)) (h : History Q) → Adds 0 h (evict_all env pods h)
    unfolding evict_all evict_pod
    evict_all-Adds [] h = omega arith
    evict_all-Adds (pod ∷ pods) h = elim (Bool-cases (should_skip pod)) [
      | inl e ↦ rw e (evict_all-Adds pods h)
      | inr e ↦ rw e (evict_all-Adds pods _)
    ]

    poll-Adds : (rounds : ℕ) (h : History Q) → Adds 0 h (poll rounds env name h).1
    unfolding poll
    poll-Adds zero h = omega arith
    poll-Adds (suc rounds) h =
        let after = Call.listed_pods name (env.list_pods h name) ∷ h in
        let rest = poll-Adds rounds after in ground arith

    drain-Adds : (h : History Q) → Adds 0 h (drain env name h).1
    unfolding drain wait_for_pods_gone
    drain-Adds h = elim (Option-cases (env.list_pods h name)) [
      | inl e ↦ rw (e, drain) (omega arith)
      | inr (pods, e) ↦
          let listed = Call.listed_pods name (env.list_pods h name) ∷ h in
          rw (e, drain)
            (omega (
              arith,
              evict_all-Adds pods listed,
              poll-Adds poll_rounds (evict_all env pods listed),
            ))
    ]

    cordon-Adds : (h : History Q) → Adds 0 h (cordon env name h).1
    unfolding cordon
    cordon-Adds h = elim (Option-cases (env.get_node h name)) [
      | inl e ↦ rw (e, cordon) (omega arith)
      | inr (node, e) ↦ elim (Bool-cases node.unschedulable) [
        | inl u ↦ rw (e, u, cordon) (omega arith)
        | inr u ↦ rw (e, u, cordon) (omega arith)
      ]
    ]

    module _ (hook : History Q → String → Bool) (set : env.cleanup_hook ≡ some hook) where
      after_delete-Adds :
          (ok : Bool) (h : History Q)
          → let r = after_delete env name ok (Call.deleted_node name ok ∷ h) in
            Adds (is_ok r.0) h r.1
      unfolding run_hook
      after_delete-Adds true h = rw (set, run_hook) (omega arith)
      after_delete-Adds false h = omega arith

      cleanup-Adds : (h : History Q) → Adds (is_ok (cleanup env name h).0) h (cleanup env name h).1
      unfolding cleanup
      cleanup-Adds h = elim (Option-cases (env.get_node h name)) [
        | inl e ↦ rw (e, cleanup) (omega arith)
        | inr (node, e) ↦ elim (Bool-cases (is_managed node)) [
          | inr m ↦ rw (e, cleanup, m) (omega arith)
          | inl m ↦
              let got = Call.got_node name (env.get_node h name) ∷ h in
              rw (e, cleanup, m) (after_delete-Adds (env.delete_node got name) got)
        ]
      ]

      finish-Adds :
          (h : History Q) (r : Option RemoveError × History Q)
          → Adds (is_ok r.0) h r.1
          → Adds (is_ok (finish_removal env name r).0) h (finish_removal env name r).1
      unfolding finish_removal remove_kind_container
      finish-Adds h (some e, k) a = a
      finish-Adds h (none, k) a = a

      after_drain-Adds :
          (h : History Q) (r : Bool × History Q)
          → Adds 0 h r.1
          → Adds (is_ok (after_drain env name r).0) h (after_drain env name r).1
      unfolding after_drain
      after_drain-Adds h (false, k) a = a
      after_drain-Adds h (true, k) a =
          finish-Adds h (cleanup env name k) (omega (arith, cleanup-Adds k, a))

      after_cordon-Adds :
          (h : History Q) (r : Option RemoveError × History Q)
          → Adds 0 h r.1
          → Adds (is_ok (after_cordon env name r).0) h (after_cordon env name r).1
      unfolding after_cordon
      after_cordon-Adds h (some e, k) a = a
      after_cordon-Adds h (none, k) a =
          after_drain-Adds h (drain env name k) (omega (arith, drain-Adds k, a))

      -- With a hook set, a removal that returns no error has deleted exactly one node and run the
      -- provider's hook exactly once; one that returns an error, of whatever step, has done
      -- neither.
      pub remove_node-Adds :
          (h : History Q) → Adds (is_ok (remove_node env name h).0) h (remove_node env name h).1
      unfolding remove_node
      remove_node-Adds h = after_cordon-Adds h (cordon env name h) (cordon-Adds h)
