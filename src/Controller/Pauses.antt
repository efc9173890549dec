-- ===== src/Controller/Pauses.antt =====
-- How far apart the scale-ups of consecutive iterations of the reconcile loop are
-- (autoscaler/pkg/controller/autoscaler_controller.go).
use kubto.Prelude.{
  IsNat64, ℕ, ◌+◌, ◌-◌, ◌*◌, ◌^◌, ◌≤◌, ◌<◌, ◌≡◌, refl, subst, false, ◌∙◌, ◌⊎◌, inl, inr, true, some,
  List, length, min, Bool-cases, ltb, ◌==◌, if◌then◌else◌, arith, add64, sub64, lt64, le64,
  sub_time, sub_time_of_le, lt64-lt,
}
use kubto.Platform.{Quantity, Float64}
use kubto.Monitor.Types.{PodInfo}
use kubto.Monitor.Watchers.{Event, handle_all}
use kubto.Estimator.Packing.{EstimationReport, ResourceEstimator}
use kubto.Estimator.Estimate.{Sorter, estimate_detailed}
use kubto.Decision.{Decision, ThresholdPolicy}
use kubto.Provisioner.{NodeProvisioner}
use kubto.Lifecycle.Api.{Env}
use kubto.Controller.Metrics.{inc_scale_up}
use kubto.Controller.Scaling.{
  AutoscalerController, Attempts, with_metrics, unready_count, settle, handle_scale_up,
}
use kubto.Controller.Provisioning.{provision-total, sub64-lt}
use kubto.Controller.Backoff.{settle_blocks}
use kubto.Controller.Reconcile.{
  Course, World, catch_up, capped, act_on, branch_a, finish, reconcile,
}
use kubto.Controller.Seen.{waiting}

-- After a success the cooldown, after failures 5 seconds, doubled for each after the first, and
-- 60 at most.
abbrev pub pause_after : ℕ → ℕ → ℕ
pause_after failures cooldown =
    if failures == 0 then cooldown else min (5 * 2 ^ (failures - 1)) 60 * 1_000_000_000

within_backoff :
    (f cooldown later now : ℕ)
    → 0 < f
    → now < later + pause_after f cooldown
    → (now < later + min (5 * 2 ^ (f - 1)) 60 * 1_000_000_000) × (now < later + 60_000_000_000)
within_backoff f cooldown later now some_failed early =
    let failed : (f == 0) ≡ false = ground arith in ground arith

none_positive : (n : ℕ) → IsNat64 n → lt64 0 n ≡ false → n ≡ 0
unfolding lt64
none_positive n fits none = ground arith

le64-positive : (n : ℕ) → n < 2 ^ 64 → le64 n 0 ≡ false → (0 < n) × IsNat64 n
unfolding le64
le64-positive n fits positive = ground arith

cooling_from :
    (later now cooldown : ℕ)
    → later ≤ now
    → now < later + cooldown
    → cooldown < 2 ^ 62
    → lt64 (sub_time now later) cooldown ≡ true
cooling_from later now cooldown lo hi small =
    rw
      (
        sub_time_of_le now later lo (omega arith),
        lt64-lt (now - later) cooldown (omega arith) (omega arith),
      )
      (ground arith)

module _ {Q : Type 0} where
  abbrev pub pause : AutoscalerController Q → ℕ
  pause c = pause_after c.scale_up_failures c.scale_up_cooldown

  -- The handler's cooldown test blocks from `later` on, until the pause is over.
  abbrev Paused : ℕ → AutoscalerController Q → Type 0
  Paused later c =
      (now : ℕ)
      → later ≤ now
      → now < later + pause c
      → lt64 (sub_time now c.last_scale_up) c.scale_up_cooldown ≡ true

  module _ {W : Type 0} (later : ℕ) (a : Attempts W) (c : AutoscalerController Q) where
    settle-failures :
        0 < a.success_count + a.failures
        → IsNat64 a.success_count
        → (settle later a c).scale_up_failures ≤ 61
        → ((a.success_count ≡ 0)
            × (0 < a.failures)
            × ((settle later a c).scale_up_failures ≡ a.failures))
          ⊎ (((settle later a c).scale_up_failures ≡ 0)
              × ((settle later a c).last_scale_up ≡ later)
              × ((settle later a c).scale_up_cooldown ≡ c.scale_up_cooldown))
    unfolding settle
    settle-failures some_tried fits = elim (Bool-cases (lt64 0 a.success_count)) [
      | inl made ↦ rw made (λ few. inr (refl, refl, refl))
      | inr none_made ↦
          let zero_made : (a.success_count ≡ 0) = none_positive a.success_count fits none_made in
          elim (Bool-cases (lt64 0 a.failures)) [
            | inl failed ↦ rw (none_made, failed) (λ few. inl (zero_made, omega arith, refl))
            | inr wrapped ↦
                rw (none_made, wrapped)
                  (λ few. absurd (
                    omega (
                      arith,
                      none_positive a.failures (omega arith) wrapped,
                      zero_made,
                      some_tried,
                    )))
          ]
    ]

    settle-Paused :
        0 < a.success_count + a.failures
        → IsNat64 a.success_count
        → c.scale_up_cooldown < 2 ^ 62
        → c.scale_up_cooldown ≤ later
        → (settle later a c).scale_up_failures ≤ 61
        → Paused later (settle later a c)
    settle-Paused some_tried fits hc hl few now lo hi = elim (settle-failures some_tried fits few) [
      | inl (none_made, some_failed, count) ↦
          let cooldown = (settle later a c).scale_up_cooldown in
          let bounds =
            within_backoff a.failures cooldown later now some_failed
              (subst (λ f. now < later + pause_after f cooldown) count hi) in
          settle_blocks a c later now none_made some_failed (omega (arith, few, count)) hc hl lo
            (omega (arith, bounds.1))
          ∙ (let early = bounds.0 in ground arith)
      | inr (none_failed, noted, kept) ↦
          let paused =
            subst (λ f. now < later + pause_after f (settle later a c).scale_up_cooldown)
              none_failed hi in
          rw (noted, kept)
            (cooling_from later now c.scale_up_cooldown lo (omega (arith, paused, kept)) hc)
    ]

module _ {Q W : Type 0} (prov : NodeProvisioner W) (now later : ℕ) (dec : Decision)
    (c : AutoscalerController Q) (w : W) where
  -- Where `handleScaleUp` has called the provisioner, the next pause begins.
  handle-Paused :
      let r = handle_scale_up prov now later dec c w in
      IsNat64 c.scale_up_failures
      → c.scale_up_cooldown < 2 ^ 62
      → c.scale_up_cooldown ≤ later
      → r.0.scale_up_failures ≤ 61
      → (r.1 ≡ w) ⊎ Paused later r.0
  unfolding handle_scale_up
  handle-Paused hf hc hl =
      let n = sub64 dec.count (add64 c.in_flight_provisioning (unready_count c.state)) in
      elim (Bool-cases (lt64 (sub_time now c.last_scale_up) c.scale_up_cooldown)) [
        | inl cooling ↦ rw cooling (λ few. inl refl)
        | inr over ↦ elim (Bool-cases (le64 n 0)) [
          | inl none_wanted ↦ rw (over, none_wanted) (λ few. inl refl)
          | inr wanted ↦
              let wants = le64-positive n (sub64-lt _ _) wanted in
              let begun : Attempts W = record {
                success_count = 0;
                failures = c.scale_up_failures;
                loop_metrics = with_metrics inc_scale_up c.metrics;
                world = w;
              } in
              let total = provision-total prov n begun (omega (arith, wants)) in
              rw (over, wanted)
                (λ few. inr (
                  settle-Paused later _ _ (omega (arith, total, wants))
                    (omega (arith, total, wants)) hc hl few))
        ]
      ]

  handle_cooling :
      lt64 (sub_time now c.last_scale_up) c.scale_up_cooldown ≡ true
      → (handle_scale_up prov now later dec c w).1 ≡ w
  unfolding handle_scale_up
  handle_cooling cooling = rw cooling refl

module _ {Q W : Type 0} ⦃q : Quantity Q⦄ (prov : NodeProvisioner W) (course : Course Q) where
  act_on-Paused :
      (report : EstimationReport) (dec : Decision) (s : World Q W)
      → IsNat64 s.controller.scale_up_failures
      → s.controller.scale_up_cooldown < 2 ^ 62
      → s.controller.scale_up_cooldown ≤ course.end_now
      → let t = act_on prov course report dec s in
        t.controller.scale_up_failures ≤ 61
        → (t.provisioner ≡ s.provisioner) ⊎ Paused course.end_now t.controller
  unfolding act_on
  act_on-Paused report dec s hf hc hl = elim (Bool-cases dec.scale_up) [
    | inl up ↦
        simp up
          (handle-Paused prov course.check_now course.end_now (capped dec report) _ _ hf hc hl)
    | inr down ↦ rw down (λ few. inl refl)
  ]

  act_on_cooling :
      (report : EstimationReport) (dec : Decision) (s : World Q W)
      → let c = s.controller in
        lt64 (sub_time course.check_now c.last_scale_up) c.scale_up_cooldown ≡ true
        → (act_on prov course report dec s).provisioner ≡ s.provisioner
  unfolding act_on
  act_on_cooling report dec s cooling = elim (Bool-cases dec.scale_up) [
    | inl up ↦ simp up (
        handle_cooling prov course.check_now course.end_now (capped dec report) _ s.provisioner
          cooling)
    | inr down ↦ rw down refl
  ]

module _ {Q F W : Type 0} ⦃q : Quantity Q⦄ (fl : Float64 F) (sort : Sorter Q F)
    (e : ResourceEstimator) (policy : ThresholdPolicy F) (prov : NodeProvisioner W) where
  module _ (course : Course Q) (pods : List (PodInfo Q)) (s : World Q W) where
    abbrev reported : EstimationReport
    reported =
        estimate_detailed fl sort e (some (handle_all s.controller.state course.before_estimate))
          pods

    branch_a-Paused :
        IsNat64 s.controller.scale_up_failures
        → s.controller.scale_up_cooldown < 2 ^ 62
        → s.controller.scale_up_cooldown ≤ course.end_now
        → let t = branch_a fl sort e policy prov course pods s in
          t.controller.scale_up_failures ≤ 61
          → (t.provisioner ≡ s.provisioner) ⊎ Paused course.end_now t.controller
    unfolding branch_a
    branch_a-Paused hf hc hl = elim (Bool-cases (reported.nodes_needed == 0)) [
      | inl none_needed ↦ rw none_needed (λ few. inl refl)
      | inr needed ↦ rw needed (act_on-Paused prov course reported _ _ hf hc hl)
    ]

    branch_a_cooling :
        lt64 (sub_time course.check_now s.controller.last_scale_up) s.controller.scale_up_cooldown
          ≡ true
        → (branch_a fl sort e policy prov course pods s).provisioner ≡ s.provisioner
    unfolding branch_a
    branch_a_cooling cooling = elim (Bool-cases (reported.nodes_needed == 0)) [
      | inl none_needed ↦ rw none_needed refl
      | inr needed ↦ rw needed (act_on_cooling prov course reported _ _ cooling)
    ]

  module _ (threshold : F) (env : Env Q) (course : Course Q) (s : World Q W)
      (some_wait : 0 < length (waiting course s.controller.state)) where
    iteration-Paused :
        IsNat64 s.controller.scale_up_failures
        → s.controller.scale_up_cooldown < 2 ^ 62
        → s.controller.scale_up_cooldown ≤ course.end_now
        → let t = reconcile fl sort e policy threshold prov env course s in
          t.controller.scale_up_failures ≤ 61
          → (t.provisioner ≡ s.provisioner) ⊎ Paused course.end_now t.controller
    unfolding reconcile finish
    iteration-Paused hf hc hl =
        let wait : (ltb 0 (length (waiting course s.controller.state)) ≡ true) = ground arith in
        rw wait (branch_a-Paused course _ _ hf hc hl)

    iteration_cooling :
        lt64 (sub_time course.check_now s.controller.last_scale_up) s.controller.scale_up_cooldown
          ≡ true
        → (reconcile fl sort e policy threshold prov env course s).provisioner ≡ s.provisioner
    unfolding reconcile finish
    iteration_cooling cooling =
        let wait : (ltb 0 (length (waiting course s.controller.state)) ≡ true) = ground arith in
        rw wait (branch_a_cooling course _ _ cooling)

  module _ (threshold : F) where
    -- Of two successive iterations that find pods waiting, whatever the informers report between
    -- and in them, at most one changes the provisioner if the second checks the time after the end
    -- of the first and before the pause: the cooldown after a success, and after 1 to 61 failures
    -- in a row 5 seconds, doubled for each after the first, and 60 at most. The cooldown is below 2
    -- ^ 62 nanoseconds.
    pub scale_ups_apart :
        (env env2 : Env Q) (course course2 : Course Q) (events : List (Event Q)) (s : World Q W)
        → let t = reconcile fl sort e policy threshold prov env course s in
          let between = catch_up events t in
          let u = reconcile fl sort e policy threshold prov env2 course2 between in
          0 < length (waiting course s.controller.state)
          → 0 < length (waiting course2 between.controller.state)
          → IsNat64 s.controller.scale_up_failures
          → s.controller.scale_up_cooldown < 2 ^ 62
          → s.controller.scale_up_cooldown ≤ course.end_now
          → t.controller.scale_up_failures ≤ 61
          → course.end_now ≤ course2.check_now
          → course2.check_now < course.end_now + pause t.controller
          → (t.provisioner ≡ s.provisioner) ⊎ (u.provisioner ≡ t.provisioner)
    scale_ups_apart env env2 course course2 events s wait wait2 hf hc hl few lo hi =
        let t = reconcile fl sort e policy threshold prov env course s in
        elim (iteration-Paused threshold env course s wait hf hc hl few) [
          | inl same ↦ inl same
          | inr paused ↦ inr (
              iteration_cooling threshold env2 course2 (catch_up events t) wait2
                (paused course2.check_now lo hi))
        ]
