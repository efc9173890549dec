-- ===== src/Lifecycle/Safety.antt =====
-- What the removal of a node may delete, and when.
use kubto.Prelude.{
  ℕ, zero, suc, ◌≡◌, refl, ap, Option-cases, inl, inr, Bool, true, false, not, Option, none, some,
  List, [], ◌∷◌, String, All, select, length, Bool-cases, arith,
}
use kubto.Kube.{Pod, Node}
use kubto.Lifecycle.Api.{Call, History, Env}
use kubto.Lifecycle.Drain.{
  should_skip, evict_pod, evict_all, all_gone, poll, wait_for_pods_gone, drain,
}
use kubto.Lifecycle.Removal.{
  RemoveError, is_managed, run_hook, after_delete, cleanup, cordon, remove_kind_container,
  finish_removal, after_drain, after_cordon, remove_node,
}

module _ {Q : Type 0} where
  -- The newest call listed the pods of the node, and found none that must be evicted.
  abbrev IsDrained : String → History Q → Type 0
  IsDrained name h =
      (pods : List (Pod Q)) × (rest : History Q) × (h ≡ Call.listed_pods name (some pods) ∷ rest)
      × All (λ pod. should_skip pod ≡ true) pods

  -- The newest call got the node, which carries the autoscaler's mark, right after it was drained.
  abbrev MayDelete : String → History Q → Type 0
  MayDelete name h =
      (node : Node Q) × (rest : History Q) × (h ≡ Call.got_node name (some node) ∷ rest)
      × (is_managed node ≡ true)
      × IsDrained name rest

  abbrev IsSafeCall : Call Q → History Q → Type 0
  IsSafeCall (Call.deleted_node name ok) h = MayDelete name h
  IsSafeCall (Call.got_node _ _) h = Unit
  IsSafeCall (Call.listed_pods _ _) h = Unit
  IsSafeCall (Call.updated_node _ _) h = Unit
  IsSafeCall (Call.evicted _ _ _) h = Unit
  IsSafeCall (Call.ran_hook _ _) h = Unit
  IsSafeCall (Call.removed_container _ _) h = Unit

  -- Each deletion in the history was allowed when it was made.
  abbrev pub IsSafe : History Q → Type 0
  IsSafe [] = Unit
  IsSafe (call ∷ h) = IsSafeCall call h × IsSafe h

  none_left :
      (pods : List (Pod Q))
      → length (select (λ p. not (should_skip p)) pods) ≡ 0
      → All (λ p. should_skip p ≡ true) pods
  none_left [] e = tt
  none_left (pod ∷ pods) e = ground (arith, none_left pods)

  all_gone-answer :
      (answer : Option (List (Pod Q)))
      → all_gone answer ≡ true
      → (pods : List (Pod Q)) × (answer ≡ some pods) × All (λ p. should_skip p ≡ true) pods
  unfolding all_gone
  all_gone-answer none e = cc
  all_gone-answer (some pods) e = (pods, refl, none_left pods (ground arith))

  module _ (env : Env Q) (name : String) where
    evict_all-IsSafe :
        (pods : List (Pod Q)) (h : History Q) → IsSafe h → IsSafe (evict_all env pods h)
    unfolding evict_all evict_pod
    evict_all-IsSafe [] h s = s
    evict_all-IsSafe (pod ∷ pods) h s = elim (Bool-cases (should_skip pod)) [
      | inl e ↦ rw e (evict_all-IsSafe pods h s)
      | inr e ↦ rw e (evict_all-IsSafe pods _ (tt, s))
    ]

    poll-IsSafe : (rounds : ℕ) (h : History Q) → IsSafe h → IsSafe (poll rounds env name h).1
    unfolding poll
    poll-IsSafe zero h s = s
    poll-IsSafe (suc rounds) h s =
        let after = Call.listed_pods name (env.list_pods h name) ∷ h in
        ground (arith, poll-IsSafe rounds after (tt, s))

    poll-IsDrained :
        (rounds : ℕ) (h : History Q)
        → (poll rounds env name h).0 ≡ true
        → IsDrained name (poll rounds env name h).1
    unfolding poll
    poll-IsDrained zero h e = cc
    poll-IsDrained (suc rounds) h e =
        let after = Call.listed_pods name (env.list_pods h name) ∷ h in
        elim (Bool-cases (all_gone (env.list_pods h name))) [
          | inl g ↦
              let (pods, answer, skips) = all_gone-answer (env.list_pods h name) g in
              rw g (pods, h, ap (λ a. Call.listed_pods name a ∷ h) answer, skips)
          | inr g ↦ elim (Bool-cases (env.is_cancelled after)) [
            | inl c ↦ absurd (cc (rw (g, c) at e))
            | inr c ↦ rw (g, c) (poll-IsDrained rounds after (rw (g, c) at e))
          ]
        ]

    drain-IsSafe : (h : History Q) → IsSafe h → IsSafe (drain env name h).1
    unfolding drain wait_for_pods_gone
    drain-IsSafe h s = elim (Option-cases (env.list_pods h name)) [
      | inl e ↦ rw (e, drain) (tt, s)
      | inr (pods, e) ↦ rw (e, drain) (poll-IsSafe _ _ (evict_all-IsSafe pods _ (tt, s)))
    ]

    drain-IsDrained :
        (h : History Q) → (drain env name h).0 ≡ true → IsDrained name (drain env name h).1
    unfolding drain wait_for_pods_gone
    drain-IsDrained h d = elim (Option-cases (env.list_pods h name)) [
      | inl e ↦ absurd (cc (rw (e, drain) at d))
      | inr (pods, e) ↦ rw (e, drain) (poll-IsDrained _ _ (rw (e, drain) at d))
    ]

    cordon-IsSafe : (h : History Q) → IsSafe h → IsSafe (cordon env name h).1
    unfolding cordon
    cordon-IsSafe h s = elim (Option-cases (env.get_node h name)) [
      | inl e ↦ rw (e, cordon) (tt, s)
      | inr (node, e) ↦ elim (Bool-cases node.unschedulable) [
        | inl u ↦ rw (e, u, cordon) (tt, s)
        | inr u ↦ rw (e, u, cordon) (tt, (tt, s))
      ]
    ]

    run_hook-IsSafe : (h : History Q) → IsSafe h → IsSafe (run_hook env name h)
    unfolding run_hook
    run_hook-IsSafe h s = elim (Option-cases env.cleanup_hook) [
      | inl e ↦ rw (e, run_hook) s
      | inr (hook, e) ↦ rw (e, run_hook) (tt, s)
    ]

    delete_step :
        (got : History Q) (ok : Bool)
        → MayDelete name got
        → IsSafe got
        → IsSafe (after_delete env name ok (Call.deleted_node name ok ∷ got)).1
    delete_step got true d s = run_hook-IsSafe _ (d, s)
    delete_step got false d s = (d, s)

    cleanup-IsSafe : (h : History Q) → IsDrained name h → IsSafe h → IsSafe (cleanup env name h).1
    unfolding cleanup
    cleanup-IsSafe h d s = elim (Option-cases (env.get_node h name)) [
      | inl e ↦ rw (e, cleanup) (tt, s)
      | inr (node, e) ↦ elim (Bool-cases (is_managed node)) [
        | inr m ↦ rw (e, cleanup, m) (tt, s)
        | inl m ↦
            let found = ap (λ a. Call.got_node name a ∷ h) e in
            rw (e, cleanup, m) (delete_step _ _ (node, h, found, m, d) (tt, s))
      ]
    ]

    finish-IsSafe :
        (r : Option RemoveError × History Q) → IsSafe r.1 → IsSafe (finish_removal env name r).1
    unfolding finish_removal remove_kind_container
    finish-IsSafe (some e, h) s = s
    finish-IsSafe (none, h) s = (tt, s)

    after_drain-IsSafe :
        (r : Bool × History Q)
        → (r.0 ≡ true → IsDrained name r.1)
        → IsSafe r.1
        → IsSafe (after_drain env name r).1
    unfolding after_drain
    after_drain-IsSafe (false, h) d s = s
    after_drain-IsSafe (true, h) d s = finish-IsSafe _ (cleanup-IsSafe h (d refl) s)

    after_cordon-IsSafe :
        (r : Option RemoveError × History Q) → IsSafe r.1 → IsSafe (after_cordon env name r).1
    unfolding after_cordon
    after_cordon-IsSafe (some e, h) s = s
    after_cordon-IsSafe (none, h) s =
        after_drain-IsSafe (drain env name h) (drain-IsDrained h) (drain-IsSafe h s)

    -- After a history of allowed deletions, and whatever the API answers, the removal of a node
    -- deletes a node only right after it read that node and found the autoscaler's mark on it, and
    -- this right after a list of its pods showed none that must be evicted.
    pub remove_node-IsSafe : (h : History Q) → IsSafe h → IsSafe (remove_node env name h).1
    unfolding remove_node
    remove_node-IsSafe h s = after_cordon-IsSafe (cordon env name h) (cordon-IsSafe h s)
