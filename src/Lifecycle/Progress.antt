-- ===== src/Lifecycle/Progress.antt =====
-- When the removal of a node succeeds.
use kubto.Prelude.{
  ℕ, zero, suc, ◌<◌, ◌≡◌, refl, Bool, true, false, none, some, List, ◌∷◌, String, Option,
  if◌then◌else◌, Bool-cases, inl, inr, arith,
}
use kubto.Kube.{Pod, Node}
use kubto.Lifecycle.Api.{Call, History, Env}
use kubto.Lifecycle.Drain.{poll_rounds, all_gone, evict_all, poll, wait_for_pods_gone, drain}
use kubto.Lifecycle.Removal.{
  RemoveError, is_managed, after_delete, cleanup, set_unschedulable, cordon, finish_removal,
  after_drain, after_cordon, remove_node,
}

module _ {Q : Type 0} (env : Env Q) (name : String) where
  -- The history after `j` more lists of the node's pods.
  abbrev after_polls : ℕ → History Q → History Q
  after_polls zero h = h
  after_polls (suc j) h = after_polls j (Call.listed_pods name (env.list_pods h name) ∷ h)

  -- The history after the cordon of the node.
  abbrev pub cordoned : Node Q → History Q → History Q
  cordoned node h =
      let got = Call.got_node name (some node) ∷ h in
      if node.unschedulable then got else Call.updated_node (set_unschedulable node) true ∷ got

  -- The history when the drain of the cordoned node has ended.
  abbrev pub drained : Node Q → History Q → History Q
  drained node h = (drain env name (cordoned node h)).1

  -- The API shows the node, carries out what it is asked, and shows the node cordoned after the
  -- drain; no context ends early; and the pods that run on the cordoned node are gone when they
  -- have been asked to leave and were listed `j` times more.
  pub record IsWilling (node : Node Q) (pods : List (Pod Q)) (j : ℕ) (h : History Q) : Type 0 where
    pub found : env.get_node h name ≡ some node
    pub updates :
        env.update_node (Call.got_node name (some node) ∷ h) (set_unschedulable node) ≡ true
    pub lists : env.list_pods (cordoned node h) name ≡ some pods
    pub gone :
        let listed = Call.listed_pods name (some pods) ∷ cordoned node h in
        all_gone (env.list_pods (after_polls j (evict_all env pods listed)) name) ≡ true
    pub patient : (k : History Q) → env.is_cancelled k ≡ false
    pub found_cordoned : env.get_node (drained node h) name ≡ some (set_unschedulable node)
    pub deletes :
        env.delete_node (Call.got_node name (some (set_unschedulable node)) ∷ drained node h) name
        ≡ true

  poll_succeeds :
      (rounds j : ℕ) (h : History Q)
      → j < rounds
      → ((k : History Q) → env.is_cancelled k ≡ false)
      → all_gone (env.list_pods (after_polls j h) name) ≡ true
      → (poll rounds env name h).0 ≡ true
  unfolding poll
  poll_succeeds zero j h l patient g = absurd (omega arith)
  poll_succeeds (suc rounds) zero h l patient g = rw g refl
  poll_succeeds (suc rounds) (suc j) h l patient g =
      let after = Call.listed_pods name (env.list_pods h name) ∷ h in
      elim (Bool-cases (all_gone (env.list_pods h name))) [
        | inl e ↦ rw e refl
        | inr e ↦ rw (e, patient after) (poll_succeeds rounds j after (omega arith) patient g)
      ]

  drain_succeeds :
      (j : ℕ) (pods : List (Pod Q)) (h : History Q)
      → j < poll_rounds
      → ((k : History Q) → env.is_cancelled k ≡ false)
      → env.list_pods h name ≡ some pods
      → all_gone (
          env.list_pods
            (after_polls j (evict_all env pods (Call.listed_pods name (some pods) ∷ h)))
            name)
        ≡ true
      → (drain env name h).0 ≡ true
  unfolding drain wait_for_pods_gone
  drain_succeeds j pods h soon patient listed gone =
      rw (listed, drain, listed) (poll_succeeds poll_rounds j _ soon patient gone)

  delete_succeeds : (h : History Q) (ok : Bool) → ok ≡ true → (after_delete env name ok h).0 ≡ none
  delete_succeeds h true e = refl
  delete_succeeds h false e = cc

  finish_succeeds :
      (r : Option RemoveError × History Q) → r.0 ≡ none → (finish_removal env name r).0 ≡ none
  unfolding finish_removal
  finish_succeeds (none, h) e = refl
  finish_succeeds (some x, h) e = cc

  cleanup_managed :
      (node : Node Q) (h : History Q)
      → env.get_node h name ≡ some node
      → is_managed node ≡ true
      → env.delete_node (Call.got_node name (some node) ∷ h) name ≡ true
      → (cleanup env name h).0 ≡ none
  unfolding cleanup
  cleanup_managed node h found managed deletes = simp (found, cleanup, managed, deletes)

  module _ (node : Node Q) (pods : List (Pod Q)) (j : ℕ) (h : History Q) (soon : j < poll_rounds)
      (managed : is_managed node ≡ true) (w : IsWilling node pods j h) where
    still_managed : is_managed (set_unschedulable node) ≡ true
    unfolding is_managed
    still_managed = managed

    cleanup_succeeds : (cleanup env name (drained node h)).0 ≡ none
    cleanup_succeeds =
        cleanup_managed (set_unschedulable node) (drained node h) w.found_cordoned still_managed
          w.deletes

    after_drain_succeeds :
        (r : Bool × History Q)
        → r.0 ≡ true
        → r.1 ≡ drained node h
        → (after_drain env name r).0 ≡ none
    unfolding after_drain
    after_drain_succeeds (true, k) e at =
        finish_succeeds (cleanup env name k) (rw at cleanup_succeeds)
    after_drain_succeeds (false, k) e at = cc

    cordon_call : cordon env name h ≡ (none, cordoned node h)
    unfolding cordon
    cordon_call = elim (Bool-cases node.unschedulable) [
      | inl shut ↦ simp (w.found, cordon, shut)
      | inr free ↦ simp (w.found, cordon, free, w.updates)
    ]

    -- A removal succeeds where the API shows the node, with the autoscaler's mark, carries out what
    -- it is asked and shows the node cordoned after the drain, no context ends early, and the pods
    -- are gone within the 25 polls of the drain.
    pub remove_node_succeeds : (remove_node env name h).0 ≡ none
    unfolding remove_node after_cordon
    remove_node_succeeds = rw cordon_call (
        after_drain_succeeds (drain env name (cordoned node h))
          (drain_succeeds j pods (cordoned node h) soon w.patient w.lists w.gone) refl)
