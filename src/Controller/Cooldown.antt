-- ===== src/Controller/Cooldown.antt =====
-- How far apart the removals of consecutive iterations of the reconcile loop are.
use kubto.Prelude.{
  ℕ, ◌<◌, ◌≡◌, refl, ap, ◌∙◌, ◌⊎◌, inl, inr, true, Option, none, some, List, [], ◌∷◌, String,
  length, Bool-cases, ltb, arith, lt64, sub_time,
}
use kubto.Platform.{Quantity, Float64}
use kubto.Monitor.Types.{NodeInfo}
use kubto.Monitor.Watchers.{Event}
use kubto.Estimator.Packing.{ResourceEstimator}
use kubto.Estimator.Estimate.{Sorter}
use kubto.Decision.{ThresholdPolicy}
use kubto.Provisioner.{NodeProvisioner}
use kubto.Lifecycle.Api.{History, Env}
use kubto.Lifecycle.Removal.{RemoveError, remove_node}
use kubto.Lifecycle.Idle.{is_underused, node_has_workload_pods, find_idle_nodes}
use kubto.Lifecycle.Effects.{is_ok, deletions, Adds, remove_node-Adds}
use kubto.Controller.Seen.{waiting}
use kubto.Controller.Scaling.{
  AutoscalerController, set_provisioner, note_removal, handle_scale_down,
}
use kubto.Controller.Reconcile.{
  Course, World, catch_up, branch_b, scale_down_first, finish, reconcile,
}
use kubto.Controller.Rounds.{branch_a-history}

module _ {Q F : Type 0} ⦃q : Quantity Q⦄ (fl : Float64 F) (threshold : F) (env : Env Q) where
  find_idle-deletions :
      (ns : List (NodeInfo Q)) (h : History Q)
      → deletions (find_idle_nodes fl threshold env ns h).1 ≡ deletions h
  unfolding find_idle_nodes node_has_workload_pods
  find_idle-deletions [] h = refl
  find_idle-deletions (n ∷ ns) h = elim (Bool-cases (is_underused fl threshold n)) [
    | inl u ↦ rw u (find_idle-deletions ns _)
    | inr u ↦ rw u (find_idle-deletions ns h)
  ]

-- No node more was deleted, or the time of the last removal is `later`.
abbrev Noted : {Q W : Type 0} → ℕ → History Q → World Q W → Type 0
Noted later h t = (deletions t.history ≡ deletions h) ⊎ (t.controller.last_scale_down ≡ later)

since-Noted :
    {Q W : Type 0} (later : ℕ) (h k : History Q) (t : World Q W)
    → deletions k ≡ deletions h
    → Noted later k t
    → Noted later h t
since-Noted later h k t same (inl kept) = inl (kept ∙ same)
since-Noted later h k t same (inr noted) = inr noted

module _ {Q W : Type 0} (prov : NodeProvisioner W) (course : Course Q) where
  note-Noted :
      (name : String) (c : AutoscalerController Q) (w : W) (h : History Q)
      (r : Option RemoveError × History Q)
      → Adds (is_ok r.0) h r.1
      → let (d, v, last) = note_removal prov course.end_now name c w r in
        Noted course.end_now h (record { controller = d; provisioner = v; history = last })
  unfolding note_removal
  note-Noted name c w h (some e, k) a = inl (omega arith)
  note-Noted name c w h (none, k) a = inr refl

  module _ (env : Env Q) (c : AutoscalerController Q) (w : W) (h : History Q) where
    first-Noted :
        (ns : List (NodeInfo Q))
        → Noted course.end_now h (scale_down_first prov env course ns c w h)
    unfolding scale_down_first handle_scale_down set_provisioner
    first-Noted [] = inl refl
    first-Noted (n ∷ ns) =
        elim (Bool-cases
          (lt64 (sub_time course.check_now c.last_scale_down) c.scale_down_cooldown)) [
            | inl cooling ↦ rw cooling (inl refl)
            | inr over ↦ rw over (
                note-Noted n.name _ w h (remove_node (set_provisioner prov w env) n.name h)
                  (remove_node-Adds (set_provisioner prov w env) n.name _ refl h))
          ]

    first_cooling :
        (ns : List (NodeInfo Q))
        → lt64 (sub_time course.check_now c.last_scale_down) c.scale_down_cooldown ≡ true
        → (scale_down_first prov env course ns c w h).history ≡ h
    unfolding scale_down_first handle_scale_down
    first_cooling [] cooling = refl
    first_cooling (n ∷ ns) cooling = rw cooling refl

module _ {Q F W : Type 0} ⦃q : Quantity Q⦄ (fl : Float64 F) (sort : Sorter Q F)
    (e : ResourceEstimator) (policy : ThresholdPolicy F) (threshold : F)
    (prov : NodeProvisioner W) where
  branch_b-Noted :
      (env : Env Q) (course : Course Q) (s : World Q W)
      → Noted course.end_now s.history (branch_b fl threshold prov env course s)
  unfolding branch_b
  branch_b-Noted env course s =
      let ns = (catch_up course.before_search s).controller.state.nodes in
      since-Noted course.end_now s.history (find_idle_nodes fl threshold env ns s.history).1
        (branch_b fl threshold prov env course s)
        (find_idle-deletions fl threshold env ns s.history) (first-Noted prov course env _ _ _ _)

  reconcile-Noted :
      (env : Env Q) (course : Course Q) (s : World Q W)
      → Noted course.end_now s.history (reconcile fl sort e policy threshold prov env course s)
  unfolding reconcile finish
  reconcile-Noted env course s =
      elim (Bool-cases (ltb 0 (length (waiting course s.controller.state)))) [
        | inl wait ↦
            rw wait (inl (ap deletions (branch_a-history fl sort e policy prov course _ _)))
        | inr idle ↦ rw idle (branch_b-Noted env course _)
      ]

  reconcile_cooling :
      (env : Env Q) (course : Course Q) (s : World Q W)
      → lt64
          (sub_time course.check_now s.controller.last_scale_down)
          s.controller.scale_down_cooldown
        ≡ true
      → deletions (reconcile fl sort e policy threshold prov env course s).history
        ≡ deletions s.history
  unfolding reconcile finish branch_b
  reconcile_cooling env course s cooling =
      elim (Bool-cases (ltb 0 (length (waiting course s.controller.state)))) [
        | inl wait ↦ rw wait (ap deletions (branch_a-history fl sort e policy prov course _ _))
        | inr idle ↦ rw idle (
            ap deletions (first_cooling prov course env _ _ _ _ cooling)
            ∙ find_idle-deletions fl threshold env _ s.history)
      ]

  -- After an iteration that deleted a node, the next one deletes none, whatever it finds and the
  -- informers report meanwhile, if it checks before the cooldown since that removal is over.
  pub removals_apart :
      (env env2 : Env Q) (course course2 : Course Q) (events : List (Event Q)) (s : World Q W)
      → let t = reconcile fl sort e policy threshold prov env course s in
        let u = reconcile fl sort e policy threshold prov env2 course2 (catch_up events t) in
        deletions s.history < deletions t.history
        → lt64 (sub_time course2.check_now course.end_now) t.controller.scale_down_cooldown ≡ true
        → deletions u.history ≡ deletions t.history
  removals_apart env env2 course course2 events s removed early =
      let t = reconcile fl sort e policy threshold prov env course s in
      elim (reconcile-Noted env course s) [
        | inl same ↦ absurd (omega (arith, same))
        | inr noted ↦ reconcile_cooling env2 course2 (catch_up events t) (rw noted early)
      ]
