-- ===== src/Controller/Rounds.antt =====
-- What one iteration of the reconcile loop may do.
use kubto.Prelude.{
  ℕ, ◌⊎◌, ◌≡◌, refl, sym, subst, ltb, ◌<◌, true, Option, none, some, List, [], ◌∷◌, String, length,
  Bool-cases, inl, inr, arith, lt64, sub_time,
}
use kubto.Platform.{Quantity, Float64}
use kubto.Monitor.Types.{PodInfo, NodeInfo, ClusterState}
use kubto.Monitor.Watchers.{handle_all}
use kubto.Estimator.Packing.{ResourceEstimator}
use kubto.Estimator.Estimate.{Sorter, estimate_detailed}
use kubto.Decision.{ThresholdPolicy}
use kubto.Provisioner.{NodeProvisioner}
use kubto.Lifecycle.Api.{History, Env}
use kubto.Lifecycle.Removal.{RemoveError}
use kubto.Lifecycle.Idle.{is_underused, node_has_workload_pods, find_idle_nodes}
use kubto.Lifecycle.Safety.{IsSafe, remove_node-IsSafe}
use kubto.Controller.Seen.{at_estimate, at_search, waiting}
use kubto.Controller.Scaling.{
  AutoscalerController, set_provisioner, note_removal, handle_scale_down,
}
use kubto.Controller.Reconcile.{
  Course, World, act_on, branch_a, scale_down_first, branch_b, finish, reconcile,
}

-- The provisioner is left alone, or has terminated the node of this name.
abbrev Terminates : {W : Type 0} → NodeProvisioner W → String → W → W → Type 0
Terminates prov name w v = (v ≡ w) ⊎ (v ≡ (prov.terminate_node w name).1)

-- The provisioner is left alone, or has terminated the first of the nodes.
abbrev pub TerminatesFirst : {Q W : Type 0} → NodeProvisioner W → List (NodeInfo Q) → W → W → Type 0
TerminatesFirst prov [] w v = v ≡ w
TerminatesFirst prov (n ∷ ns) w v = Terminates prov n.name w v

module _ {Q W : Type 0} (prov : NodeProvisioner W) where
  pub note_removal-history :
      (later : ℕ) (name : String) (c : AutoscalerController Q) (w : W)
      (r : Option RemoveError × History Q)
      → (note_removal prov later name c w r).2 ≡ r.1
  unfolding note_removal
  note_removal-history later name c w (some e, h) = refl
  note_removal-history later name c w (none, h) = refl

  note_removal-Terminates :
      (later : ℕ) (name : String) (c : AutoscalerController Q) (w : W)
      (r : Option RemoveError × History Q)
      → Terminates prov name w (note_removal prov later name c w r).1
  unfolding note_removal
  note_removal-Terminates later name c w (some e, h) = inl refl
  note_removal-Terminates later name c w (none, h) = inr refl

  module _ (env : Env Q) (now later : ℕ) (name : String) (c : AutoscalerController Q) (w : W)
      (h : History Q) where
    scale_down-IsSafe : IsSafe h → IsSafe (handle_scale_down prov env now later name c w h).2
    unfolding handle_scale_down
    scale_down-IsSafe s =
        elim (Bool-cases (lt64 (sub_time now c.last_scale_down) c.scale_down_cooldown)) [
          | inl cooling ↦ rw cooling s
          | inr e ↦
              rw (e, note_removal-history)
                (remove_node-IsSafe (set_provisioner prov w env) name h s)
        ]

    scale_down-Terminates :
        Terminates prov name w (handle_scale_down prov env now later name c w h).1
    unfolding handle_scale_down
    scale_down-Terminates =
        elim (Bool-cases (lt64 (sub_time now c.last_scale_down) c.scale_down_cooldown)) [
          | inl cooling ↦ rw cooling (inl refl)
          | inr e ↦ rw e (note_removal-Terminates _ _ _ _ _)
        ]

module _ {Q F : Type 0} ⦃q : Quantity Q⦄ (fl : Float64 F) (threshold : F) (env : Env Q) where
  find_idle-IsSafe :
      (ns : List (NodeInfo Q)) (h : History Q)
      → IsSafe h
      → IsSafe (find_idle_nodes fl threshold env ns h).1
  unfolding find_idle_nodes node_has_workload_pods
  find_idle-IsSafe [] h s = s
  find_idle-IsSafe (n ∷ ns) h s = elim (Bool-cases (is_underused fl threshold n)) [
    | inl u ↦ rw u (find_idle-IsSafe ns _ (tt, s))
    | inr u ↦ rw u (find_idle-IsSafe ns h s)
  ]

module _ {Q W : Type 0} (prov : NodeProvisioner W) (env : Env Q) (course : Course Q) where
  module _ (c : AutoscalerController Q) (w : W) (h : History Q) where
    first-Terminates :
        (ns : List (NodeInfo Q))
        → TerminatesFirst prov ns w (scale_down_first prov env course ns c w h).provisioner
    unfolding scale_down_first
    first-Terminates [] = refl
    first-Terminates (n ∷ ns) = scale_down-Terminates prov env _ _ n.name _ w h

    first-IsSafe :
        (ns : List (NodeInfo Q))
        → IsSafe h
        → IsSafe (scale_down_first prov env course ns c w h).history
    unfolding scale_down_first
    first-IsSafe [] s = s
    first-IsSafe (n ∷ ns) s = scale_down-IsSafe prov env _ _ n.name _ w h s

-- The nodes of a state that are idle, by the answers of the API after these calls.
abbrev pub idle_nodes :
    {Q F : Type 0} ⦃q : Quantity Q⦄
    → Float64 F
    → F
    → Env Q
    → ClusterState Q
    → History Q
    → List (NodeInfo Q)
idle_nodes fl threshold env state h = (find_idle_nodes fl threshold env state.nodes h).0

module _ {Q F W : Type 0} ⦃q : Quantity Q⦄ (fl : Float64 F) (threshold : F)
    (prov : NodeProvisioner W) (env : Env Q) (course : Course Q) where
  branch_b-Terminates :
      (s : World Q W)
      → TerminatesFirst prov
          (idle_nodes fl threshold env
            (handle_all s.controller.state course.before_search)
            s.history)
          s.provisioner
          (branch_b fl threshold prov env course s).provisioner
  unfolding branch_b
  branch_b-Terminates s = first-Terminates prov env course _ s.provisioner _ _

  branch_b-IsSafe :
      (s : World Q W) → IsSafe s.history → IsSafe (branch_b fl threshold prov env course s).history
  unfolding branch_b
  branch_b-IsSafe s safe =
      first-IsSafe prov env course _ _ _ _ (find_idle-IsSafe fl threshold env _ s.history safe)

module _ {Q F W : Type 0} ⦃q : Quantity Q⦄ (fl : Float64 F) (sort : Sorter Q F)
    (e : ResourceEstimator) (policy : ThresholdPolicy F) (prov : NodeProvisioner W)
    (course : Course Q) where
  pub branch_a-history :
      (pods : List (PodInfo Q)) (s : World Q W)
      → (branch_a fl sort e policy prov course pods s).history ≡ s.history
  unfolding branch_a act_on
  branch_a-history pods s = ground arith

  branch_a-provisioner :
      (pods : List (PodInfo Q)) (s : World Q W)
      → let seen = handle_all s.controller.state course.before_estimate in
        (estimate_detailed fl sort e (some seen) pods).nodes_needed ≡ 0
        → (branch_a fl sort e policy prov course pods s).provisioner ≡ s.provisioner
  unfolding branch_a
  branch_a-provisioner pods s none_needed = rw none_needed refl

module _ {Q F W : Type 0} ⦃q : Quantity Q⦄ (fl : Float64 F) (sort : Sorter Q F)
    (e : ResourceEstimator) (policy : ThresholdPolicy F) (threshold : F) (prov : NodeProvisioner W)
    (env : Env Q) (course : Course Q) where
  -- One iteration never scales both ways, whatever the informers report while it runs. Either a pod
  -- waits for resources where the iteration reads the pods, and it adds no call of the lifecycle
  -- manager to the history; or none waits, and it calls the provisioner at most for the termination
  -- of the first node that is idle where it reads the nodes, and not at all where none is.
  pub reconcile-one_way :
      (s : World Q W)
      → let t = reconcile fl sort e policy threshold prov env course s in
        let start = s.controller.state in
        ((0 < length (waiting course start)) × (t.history ≡ s.history))
        ⊎ ((length (waiting course start) ≡ 0)
            × TerminatesFirst prov
                (idle_nodes fl threshold env (at_search course start) s.history)
                s.provisioner
                t.provisioner)
  unfolding reconcile finish
  reconcile-one_way s = elim (Bool-cases (ltb 0 (length (waiting course s.controller.state)))) [
    | inl wait ↦ inl (ground arith, rw wait (branch_a-history fl sort e policy prov course _ _))
    | inr idle ↦ inr (ground arith, rw idle (branch_b-Terminates fl threshold prov env course _))
  ]

  -- While pods wait and the estimate needs no node, be it that all fit on existing nodes or that
  -- none fits the template, the iteration leaves the provisioner as it was.
  infeasible-no_provisioning :
      (s : World Q W)
      → 0 < length (waiting course s.controller.state)
      → let start = s.controller.state in
        (estimate_detailed fl sort e
            (some (at_estimate course start))
            (waiting course start)).nodes_needed
          ≡ 0
        → (reconcile fl sort e policy threshold prov env course s).provisioner ≡ s.provisioner
  unfolding reconcile finish
  infeasible-no_provisioning s some_wait none_needed =
      let wait : (ltb 0 (length (waiting course s.controller.state)) ≡ true) = ground arith in
      rw wait (branch_a-provisioner fl sort e policy prov course _ _ none_needed)

  -- Each deletion that an iteration adds to the history was allowed when it was made.
  pub reconcile-IsSafe :
      (s : World Q W)
      → IsSafe s.history
      → IsSafe (reconcile fl sort e policy threshold prov env course s).history
  unfolding reconcile finish
  reconcile-IsSafe s safe = elim (Bool-cases (ltb 0 (length (waiting course s.controller.state)))) [
    | inl wait ↦
        rw wait (subst IsSafe (sym (branch_a-history fl sort e policy prov course _ _)) safe)
    | inr idle ↦ rw idle (branch_b-IsSafe fl threshold prov env course _ safe)
  ]

  -- While no pod waits, an iteration does the same under any two policies, whatever their numbers
  -- of nodes to keep, their cooldowns and their checkers of critical pods.
  pub removal_ignores_policy :
      (other : ThresholdPolicy F) (s : World Q W)
      → length (waiting course s.controller.state) ≡ 0
      → reconcile fl sort e policy threshold prov env course s
        ≡ reconcile fl sort e other threshold prov env course s
  unfolding reconcile
  removal_ignores_policy other s none_wait = rw none_wait refl
