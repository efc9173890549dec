-- ===== src/Controller/Keeps.antt =====
-- What an iteration leaves as it was, and what becomes of the cluster state meanwhile.
use kubto.Prelude.{
  ℕ, ◌^◌, ◌<◌, ◌≡◌, refl, sym, ◌∙◌, ◌++◌, inl, inr, Option, none, some, List, [], ◌∷◌, String,
  length, Bool-cases, arith, ltb, ◌==◌, lt64, le64, sub64, add64, sub_time,
}
use kubto.Platform.{Quantity, Float64}
use kubto.Monitor.Types.{PodInfo, NodeInfo, ClusterState}
use kubto.Monitor.Watchers.{Event, handle, handle_all}
use kubto.Estimator.Packing.{EstimationReport, ResourceEstimator}
use kubto.Estimator.Estimate.{Sorter, estimate_detailed}
use kubto.Decision.{Decision, ThresholdPolicy}
use kubto.Provisioner.{NodeProvisioner}
use kubto.Lifecycle.Api.{History, Env}
use kubto.Lifecycle.Removal.{RemoveError}
use kubto.Controller.Scaling.{
  AutoscalerController, Attempts, settle, unready_count, handle_scale_up, note_removal,
  handle_scale_down,
}
use kubto.Controller.Provisioning.{scale_up-in_flight}
use kubto.Controller.Reconcile.{
  Course, World, act_on, branch_a, scale_down_first, branch_b, finish, reconcile,
}
use kubto.Controller.Seen.{waiting}

-- The cluster state and the number of nodes in flight are as they were.
abbrev Keeps : {Q : Type 0} → AutoscalerController Q → AutoscalerController Q → Type 0
Keeps c d = (d.state ≡ c.state) × (d.in_flight_provisioning ≡ c.in_flight_provisioning)

module _ {Q W : Type 0} (prov : NodeProvisioner W) where
  settle_state :
      (later : ℕ) (a : Attempts W) (c : AutoscalerController Q) → (settle later a c).state ≡ c.state
  unfolding settle
  settle_state later a c = ground arith

  scale_up_state :
      (now later : ℕ) (dec : Decision) (c : AutoscalerController Q) (w : W)
      → (handle_scale_up prov now later dec c w).0.state ≡ c.state
  unfolding handle_scale_up
  scale_up_state now later dec c w =
      elim (Bool-cases (lt64 (sub_time now c.last_scale_up) c.scale_up_cooldown)) [
        | inl cooling ↦ simp cooling
        | inr e ↦
            let missing =
              sub64 dec.count (add64 c.in_flight_provisioning (unready_count c.state)) in
            elim (Bool-cases (le64 missing 0)) [
              | inl few ↦ simp (e, few)
              | inr more ↦ simp (e, more) (settle_state later _ _)
            ]
      ]

  note_removal-Keeps :
      (later : ℕ) (name : String) (c : AutoscalerController Q) (w : W)
      (r : Option RemoveError × History Q)
      → Keeps c (note_removal prov later name c w r).0
  unfolding note_removal
  note_removal-Keeps later name c w (some e, h) = (refl, refl)
  note_removal-Keeps later name c w (none, h) = (refl, refl)

  scale_down-Keeps :
      (env : Env Q) (now later : ℕ) (name : String) (c : AutoscalerController Q) (w : W)
      (h : History Q)
      → Keeps c (handle_scale_down prov env now later name c w h).0
  unfolding handle_scale_down
  scale_down-Keeps env now later name c w h =
      elim (Bool-cases (lt64 (sub_time now c.last_scale_down) c.scale_down_cooldown)) [
        | inl cooling ↦ simp cooling (refl, refl)
        | inr e ↦ simp e (note_removal-Keeps later name _ w _)
      ]

  first-Keeps :
      (env : Env Q) (course : Course Q) (ns : List (NodeInfo Q)) (c : AutoscalerController Q)
      (w : W) (h : History Q)
      → Keeps c (scale_down_first prov env course ns c w h).controller
  unfolding scale_down_first
  first-Keeps env course [] c w h = (refl, refl)
  first-Keeps env course (n ∷ ns) c w h = scale_down-Keeps env _ _ n.name _ w h

module _ {Q : Type 0} ⦃q : Quantity Q⦄ where
  -- From one cluster state to another by some events of the informers, while the number of nodes in
  -- flight stays as it is.
  abbrev Follows : ClusterState Q → ℕ → ClusterState Q → ℕ → Type 0
  Follows start in_flight last left =
      ((es : List (Event Q)) × (last ≡ handle_all start es)) × (left ≡ in_flight)

  handle_all-append :
      (es fs : List (Event Q)) (s : ClusterState Q)
      → handle_all s (es ++ fs) ≡ handle_all (handle_all s es) fs
  handle_all-append [] fs s = refl
  handle_all-append (e ∷ es) fs s = handle_all-append es fs (handle s e)

  -- The informers catch up, and a step follows.
  after_events :
      (es : List (Event Q)) (s t : ClusterState Q) (m n : ℕ)
      → Follows (handle_all s es) m t n
      → Follows s m t n
  after_events es s t m n ((fs, e), kept) = ((es ++ fs, e ∙ sym (handle_all-append es fs s)), kept)

-- So it is from one controller to another.
abbrev pub ControllerFollows :
    {Q : Type 0} ⦃q : Quantity Q⦄ → AutoscalerController Q → AutoscalerController Q → Type 0
ControllerFollows c d = Follows c.state c.in_flight_provisioning d.state d.in_flight_provisioning

module _ {Q W : Type 0} ⦃q : Quantity Q⦄ (prov : NodeProvisioner W) (course : Course Q) where
  act_on-Follows :
      (report : EstimationReport) (dec : Decision) (s : World Q W)
      → s.controller.in_flight_provisioning < 2 ^ 64
      → ControllerFollows s.controller (act_on prov course report dec s).controller
  unfolding act_on
  act_on-Follows report dec s small = elim (Bool-cases dec.scale_up) [
    | inr down ↦ simp down (([], refl), refl)
    | inl up ↦ simp up (
        after_events course.before_handler s.controller.state _ _ _
          (([], scale_up_state prov _ _ _ _ _), scale_up-in_flight prov _ _ _ _ _ small))
  ]

module _ {Q F W : Type 0} ⦃q : Quantity Q⦄ (fl : Float64 F) (sort : Sorter Q F)
    (e : ResourceEstimator) (prov : NodeProvisioner W) (course : Course Q) where
  branch_a-Follows :
      (policy : ThresholdPolicy F) (pods : List (PodInfo Q)) (s : World Q W)
      → s.controller.in_flight_provisioning < 2 ^ 64
      → ControllerFollows s.controller (branch_a fl sort e policy prov course pods s).controller
  unfolding branch_a
  branch_a-Follows policy pods s small =
      let seen = handle_all s.controller.state course.before_estimate in
      let report = estimate_detailed fl sort e (some seen) pods in
      after_events course.before_estimate s.controller.state _ _ _
        (elim (Bool-cases (report.nodes_needed == 0)) [
          | inl none_needed ↦ simp none_needed (([], refl), refl)
          | inr some_needed ↦ simp some_needed (
              after_events course.before_policy seen _ _ _
                (act_on-Follows prov course report _ _ small))
        ])

  branch_b-Follows :
      (threshold : F) (env : Env Q) (s : World Q W)
      → ControllerFollows s.controller (branch_b fl threshold prov env course s).controller
  unfolding branch_b
  branch_b-Follows threshold env s =
      after_events course.before_search s.controller.state _ _ _
        (let kept = first-Keeps prov env course _ _ _ _ in (([], kept.0), kept.1))

  pub reconcile-Follows :
      (policy : ThresholdPolicy F) (threshold : F) (env : Env Q) (s : World Q W)
      → s.controller.in_flight_provisioning < 2 ^ 64
      → ControllerFollows s.controller
          (reconcile fl sort e policy threshold prov env course s).controller
  unfolding reconcile finish
  reconcile-Follows policy threshold env s small =
      let pods = waiting course s.controller.state in
      after_events course.before_pods s.controller.state _ _ _
        (elim (Bool-cases (ltb 0 (length pods))) [
          | inl wait ↦ simp wait (branch_a-Follows policy pods _ small)
          | inr idle ↦ simp idle (branch_b-Follows threshold env _)
        ])
