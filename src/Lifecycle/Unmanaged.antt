-- ===== src/Lifecycle/Unmanaged.antt =====
-- The removal of a node that the autoscaler does not manage.
use kubto.Prelude.{
  ℕ, zero, suc, ◌≡◌, refl, sym, ap, ◌∙◌, Bool, true, false, Option, none, some, List, [], ◌∷◌, ◌++◌,
  String, Option-cases, Bool-cases, inl, inr, if◌then◌else◌,
}
use mathlib.Core.List.{append_assoc}
use kubto.Kube.{Pod, Node}
use kubto.Lifecycle.Api.{Call, History, Env}
use kubto.Lifecycle.Drain.{
  should_skip, evict_pod, evict_all, all_gone, poll, wait_for_pods_gone, drain,
}
use kubto.Lifecycle.Removal.{
  RemoveError, is_managed, cleanup, set_unschedulable, cordon, finish_removal, after_drain,
  after_cordon, remove_node,
}

-- `k` is `h` with more calls.
abbrev pub Extends : {Q : Type 0} → History Q → History Q → Type 0
Extends {Q} h k = (newer : History Q) × (k ≡ newer ++ h)

abbrev pub IsError : Option RemoveError → Type 0
IsError none = ⊥
IsError (some e) = Unit {0}

module _ {Q : Type 0} where
  one-Extends : (call : Call Q) (h k : History Q) → Extends (call ∷ h) k → Extends h k
  one-Extends call h k (newer, e) = (newer ++ call ∷ [], rw (append_assoc newer (call ∷ []) h) e)

  module _ (env : Env Q) (name : String) where
    evict_all-Extends : (pods : List (Pod Q)) (h : History Q) → Extends h (evict_all env pods h)
    unfolding evict_all evict_pod
    evict_all-Extends [] h = ([], refl)
    evict_all-Extends (pod ∷ pods) h = elim (Bool-cases (should_skip pod)) [
      | inl e ↦ rw e (evict_all-Extends pods h)
      | inr e ↦ rw e (one-Extends _ h _ (evict_all-Extends pods _))
    ]

    poll-Extends : (rounds : ℕ) (h : History Q) → Extends h (poll rounds env name h).1
    unfolding poll
    poll-Extends zero h = ([], refl)
    poll-Extends (suc rounds) h =
        let answer = env.list_pods h name in
        let after = Call.listed_pods name answer ∷ h in
        elim (Bool-cases (all_gone answer)) [
          | inl g ↦ rw g (Call.listed_pods name answer ∷ [], refl)
          | inr g ↦ elim (Bool-cases (env.is_cancelled after)) [
            | inl c ↦ rw (g, c) (Call.listed_pods name answer ∷ [], refl)
            | inr c ↦ rw (g, c) (one-Extends _ h _ (poll-Extends rounds after))
          ]
        ]

    trans-Extends : (h k l : History Q) → Extends h k → Extends k l → Extends h l
    trans-Extends h k l (a, e) (b, f) =
        (b ++ a, f ∙ (ap (λ x. b ++ x) e ∙ sym (append_assoc b a h)))

    drain-Extends : (h : History Q) → Extends h (drain env name h).1
    unfolding drain wait_for_pods_gone
    drain-Extends h = elim (Option-cases (env.list_pods h name)) [
      | inl e ↦ rw (e, drain) (Call.listed_pods name (env.list_pods h name) ∷ [], refl)
      | inr (pods, e) ↦
          let listed = Call.listed_pods name (env.list_pods h name) ∷ h in
          rw (e, drain)
            (one-Extends _ h _ (
              trans-Extends listed (evict_all env pods listed) _ (evict_all-Extends pods listed)
                (poll-Extends _ (evict_all env pods listed))))
    ]

    finish-refuses :
        (h : History Q) (r : Option RemoveError × History Q)
        → IsError r.0 × Extends h r.1
        → IsError (finish_removal env name r).0 × Extends h (finish_removal env name r).1
    unfolding finish_removal
    finish-refuses h (some e, k) x = x
    finish-refuses h (none, k) x = absurd x.0

    -- The API shows no node of this name with the autoscaler's mark.
    abbrev pub ShowsNoMark : History Q → Type 0
    ShowsNoMark h = (n : Node Q) → env.get_node h name ≡ some n → is_managed n ≡ false

    cleanup_refuses :
        (h k : History Q)
        → Extends h k
        → ShowsNoMark k
        → IsError (cleanup env name k).0 × Extends h (cleanup env name k).1
    unfolding cleanup
    cleanup_refuses h k (newer, e) no_mark =
        let asked = ap (λ l. Call.got_node name (env.get_node k name) ∷ l) e in
        let more = Call.got_node name (env.get_node k name) ∷ newer in
        elim (Option-cases (env.get_node k name)) [
          | inl none_found ↦ rw (none_found, cleanup) (tt, (more, asked))
          | inr (n, found) ↦ rw (found, cleanup, no_mark n found) (tt, (more, asked))
        ]

    after_drain-refuses :
        (h : History Q) (r : Bool × History Q)
        → Extends h r.1
        → ShowsNoMark r.1
        → IsError (after_drain env name r).0 × Extends h (after_drain env name r).1
    unfolding after_drain
    after_drain-refuses h (false, k) x no_mark = (tt, x)
    after_drain-refuses h (true, k) x no_mark =
        finish-refuses h (cleanup env name k) (cleanup_refuses h k x no_mark)

    module _ (node : Node Q) (h : History Q) where
      -- The history once the API was asked to cordon the node.
      abbrev pub asked_to_cordon : History Q
      asked_to_cordon =
          let got = Call.got_node name (some node) ∷ h in
          Call.updated_node (set_unschedulable node) (env.update_node got (set_unschedulable node))
          ∷ got

      after_cordon-refuses :
          (ok : Bool) (k : History Q)
          → ShowsNoMark (drain env name k).1
          → let r =
              after_cordon env name (if ok then none else some RemoveError.update_failed, k) in
            IsError r.0 × Extends k r.1
      unfolding after_cordon
      after_cordon-refuses true k no_mark =
          after_drain-refuses k (drain env name k) (drain-Extends k) no_mark
      after_cordon-refuses false k no_mark = (tt, ([], refl))

      cordon_call :
          env.get_node h name ≡ some node
          → node.unschedulable ≡ false
          → let got = Call.got_node name (some node) ∷ h in
            cordon env name h ≡ (
              if env.update_node got (set_unschedulable node)
                  then none
                  else some RemoveError.update_failed,
              asked_to_cordon,
            )
      unfolding cordon
      cordon_call found open_node = simp (found, open_node, cordon)

      -- Where the API shows the node, not cordoned, and after the drain shows no node of this name
      -- with the autoscaler's mark, as for one that never had it, the removal returns an error, but
      -- only after it has asked the API to cordon the node.
      pub remove_unmanaged :
          env.get_node h name ≡ some node
          → node.unschedulable ≡ false
          → ShowsNoMark (drain env name asked_to_cordon).1
          → IsError (remove_node env name h).0 × Extends asked_to_cordon (remove_node env name h).1
      unfolding remove_node
      remove_unmanaged found open_node no_mark =
          rw (cordon_call found open_node) (after_cordon-refuses _ _ no_mark)
