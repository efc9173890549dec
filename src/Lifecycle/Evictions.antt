-- ===== src/Lifecycle/Evictions.antt =====
-- Which pods a removal asks to leave: `Drain` of autoscaler/pkg/lifecycle/node_drain.go.
use kubto.Prelude.{
  ℕ, zero, suc, ◌≡◌, refl, ◌∙◌, ap, ◌↔◌, Option-cases, Bool-cases, inl, inr, Bool, true, false, not,
  Option, none, some, List, [], ◌∷◌, String, select, arith,
}
use kubto.Kube.{Pod}
use kubto.Lifecycle.Api.{Call, History, Env}
use kubto.Lifecycle.Drain.{
  is_finished, is_static_pod, is_daemon_set_pod, should_skip, evict_pod, evict_all, poll_rounds,
  poll, wait_for_pods_gone, drain,
}
use kubto.Lifecycle.Removal.{
  RemoveError, is_managed, run_hook, after_delete, cleanup, cordon, remove_kind_container,
  finish_removal, after_drain, after_cordon, remove_node,
}

module _ {Q : Type 0} where
  -- The namespaces and names of the pods whose eviction was asked for, the newest first.
  abbrev pub evictions : History Q → List (String × String)
  evictions [] = []
  evictions (Call.evicted namespace name answer ∷ h) = (namespace, name) ∷ evictions h
  evictions (_ ∷ h) = evictions h

  -- Each of the pods is noted, in order.
  abbrev pub note_all : List (Pod Q) → List (String × String) → List (String × String)
  note_all [] noted = noted
  note_all (pod ∷ pods) noted = note_all pods ((pod.namespace, pod.name) ∷ noted)

  abbrev pub evictable : List (Pod Q) → List (Pod Q)
  evictable pods = select (λ pod. not (should_skip pod)) pods

  module _ (env : Env Q) (name : String) where
    evict_all-evictions :
        (pods : List (Pod Q)) (h : History Q)
        → evictions (evict_all env pods h) ≡ note_all (evictable pods) (evictions h)
    unfolding evict_all evict_pod
    evict_all-evictions [] h = refl
    evict_all-evictions (pod ∷ pods) h = elim (Bool-cases (should_skip pod)) [
      | inl e ↦ rw e (evict_all-evictions pods h)
      | inr e ↦ rw e (evict_all-evictions pods _)
    ]

    poll-evictions :
        (rounds : ℕ) (h : History Q) → evictions (poll rounds env name h).1 ≡ evictions h
    unfolding poll
    poll-evictions zero h = refl
    poll-evictions (suc rounds) h =
        let after = Call.listed_pods name (env.list_pods h name) ∷ h in
        let rest = poll-evictions rounds after in ground arith

    drain-evictions :
        (pods : List (Pod Q)) (h : History Q)
        → env.list_pods h name ≡ some pods
        → evictions (drain env name h).1 ≡ note_all (evictable pods) (evictions h)
    unfolding drain wait_for_pods_gone
    drain-evictions pods h listed =
        rw (listed, drain, listed) (poll-evictions poll_rounds _ ∙ evict_all-evictions pods _)

    cordon-evictions : (h : History Q) → evictions (cordon env name h).1 ≡ evictions h
    unfolding cordon
    cordon-evictions h = elim (Option-cases (env.get_node h name)) [
      | inl e ↦ rw (e, cordon) refl
      | inr (node, e) ↦ elim (Bool-cases node.unschedulable) [
        | inl u ↦ rw (e, u, cordon) refl
        | inr u ↦ rw (e, u, cordon) refl
      ]
    ]

    hook-evictions : (h : History Q) → evictions (run_hook env name h) ≡ evictions h
    unfolding run_hook
    hook-evictions h = elim (Option-cases env.cleanup_hook) [
      | inl e ↦ rw (e, run_hook) refl
      | inr (hook, e) ↦ rw (e, run_hook) refl
    ]

    after_delete-evictions :
        (ok : Bool) (h : History Q) → evictions (after_delete env name ok h).1 ≡ evictions h
    after_delete-evictions true h = hook-evictions h
    after_delete-evictions false h = refl

    cleanup-evictions : (h : History Q) → evictions (cleanup env name h).1 ≡ evictions h
    unfolding cleanup
    cleanup-evictions h = elim (Option-cases (env.get_node h name)) [
      | inl e ↦ rw (e, cleanup) refl
      | inr (node, e) ↦ elim (Bool-cases (is_managed node)) [
        | inr m ↦ rw (e, cleanup, m) refl
        | inl m ↦
            let got = Call.got_node name (env.get_node h name) ∷ h in
            let ok = env.delete_node got name in
            rw (e, cleanup, m) (after_delete-evictions ok (Call.deleted_node name ok ∷ got))
      ]
    ]

    finish-evictions :
        (r : Option RemoveError × History Q)
        → evictions (finish_removal env name r).1 ≡ evictions r.1
    unfolding finish_removal remove_kind_container
    finish-evictions (some e, k) = refl
    finish-evictions (none, k) = refl

    after_drain-evictions :
        (r : Bool × History Q) → evictions (after_drain env name r).1 ≡ evictions r.1
    unfolding after_drain
    after_drain-evictions (false, k) = refl
    after_drain-evictions (true, k) = finish-evictions (cleanup env name k) ∙ cleanup-evictions k

    after_cordon-evictions :
        (pods : List (Pod Q)) (r : Option RemoveError × History Q)
        → r.0 ≡ none
        → env.list_pods r.1 name ≡ some pods
        → evictions (after_cordon env name r).1 ≡ note_all (evictable pods) (evictions r.1)
    unfolding after_cordon
    after_cordon-evictions pods (some e, k) fine listed = cc
    after_cordon-evictions pods (none, k) fine listed =
        after_drain-evictions (drain env name k) ∙ drain-evictions pods k listed

    -- Once the node is cordoned and its pods are listed, and whatever comes of the rest, a removal
    -- asks for the eviction of exactly the listed pods that are not to be skipped, each once and in
    -- their order.
    pub remove_node-evictions :
        (pods : List (Pod Q)) (h : History Q)
        → (cordon env name h).0 ≡ none
        → env.list_pods (cordon env name h).1 name ≡ some pods
        → evictions (remove_node env name h).1 ≡ note_all (evictable pods) (evictions h)
    unfolding remove_node
    remove_node-evictions pods h fine listed =
        after_cordon-evictions pods (cordon env name h) fine listed
        ∙ ap (note_all (evictable pods)) (cordon-evictions h)

  -- A pod that is finished, static or of a DaemonSet stays.
  pub evictable_iff :
      (pod : Pod Q)
      → (should_skip pod ≡ false) ↔ (
          (is_finished pod ≡ false) × (is_static_pod pod ≡ false) × (is_daemon_set_pod pod ≡ false))
  unfolding should_skip
  evictable_iff pod = ground arith
