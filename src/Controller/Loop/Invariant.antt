-- ===== src/Controller/Loop/Invariant.antt =====
-- What holds whatever the informers report, whenever the ticks come and whatever the API answers.
use native.Mathlib.Decide.{dec_lt}
use kubto.Prelude.{
  ◌+◌, ◌≡◌, refl, sym, ◌∙◌, subst, inl, inr, false, Bool-cases, arith, if◌then◌else◌,
}
use kubto.Platform.{Quantity, Float64}
use kubto.Monitor.Watchers.Invariant.{Inv, handle-Inv, handle_all-Inv, new-Inv}
use kubto.Estimator.Packing.{ResourceEstimator}
use kubto.Estimator.Estimate.{Sorter}
use kubto.Decision.{ThresholdPolicy}
use kubto.Provisioner.{NodeProvisioner}
use kubto.Lifecycle.Api.{Env}
use kubto.Lifecycle.Safety.{IsSafe}
use kubto.Controller.Metrics.{Metrics}
use kubto.Controller.Scaling.{new_autoscaler_controller}
use kubto.Controller.Reconcile.{Course, World}
use kubto.Controller.Rounds.{reconcile-IsSafe}
use kubto.Controller.Keeps.{ControllerFollows, reconcile-Follows}
use kubto.Controller.Loop.{
  Loop, start_loop, iterate, Step, event, pods_sync, nodes_sync, synced, cancel, tick, skip, enter,
  body, leave, Reach, here, next,
}

module _ {Q F W : Type 0} ⦃q : Quantity Q⦄ (fl : Float64 F) (sort : Sorter Q F)
    (e : ResourceEstimator) (policy : ThresholdPolicy F) (threshold : F)
    (prov : NodeProvisioner W) where
  -- At most one iteration runs, and exactly while the lock is held; node names are distinct and
  -- usage is exact; each deletion was allowed; between iterations no node is in flight.
  pub record LoopInv (l : Loop Q W) : Type 0 where
    pub exclusive : l.entered + l.leaving ≡ (if l.mutex then 1 else 0)
    pub state : Inv l.world.controller.state
    pub safe : IsSafe l.world.history
    pub settled : l.world.controller.in_flight_provisioning ≡ 0

  start-LoopInv : (m : Metrics) (w : W) → LoopInv (start_loop m w)
  unfolding new_autoscaler_controller
  start-LoopInv m w = record { exclusive = omega arith; state = new-Inv; safe = tt; settled = refl }

  iterate-Follows :
      (env : Env Q) (course : Course Q) (s : World Q W)
      → s.controller.in_flight_provisioning ≡ 0
      → ControllerFollows s.controller
          (iterate fl sort e policy threshold prov env course s).controller
  unfolding iterate
  iterate-Follows env course s settled =
      reconcile-Follows fl sort e prov course _ threshold env s (omega arith)

  iterate-IsSafe :
      (env : Env Q) (course : Course Q) (s : World Q W)
      → IsSafe s.history
      → IsSafe (iterate fl sort e policy threshold prov env course s).history
  unfolding iterate
  iterate-IsSafe env course s safe = reconcile-IsSafe fl sort e _ threshold prov env course s safe

  Step-LoopInv : {l k : Loop Q W} → Step fl sort e policy threshold prov l k → LoopInv l → LoopInv k
  Step-LoopInv {l} (event ev) v = record {
    exclusive = v.exclusive;
    state = handle-Inv l.world.controller.state ev v.state;
    safe = v.safe;
    settled = v.settled;
  }
  Step-LoopInv pods_sync v = record {
    exclusive = v.exclusive;
    state = v.state;
    safe = v.safe;
    settled = v.settled;
  }
  Step-LoopInv nodes_sync v = record {
    exclusive = v.exclusive;
    state = v.state;
    safe = v.safe;
    settled = v.settled;
  }
  Step-LoopInv (synced w p n) v = record {
    exclusive = v.exclusive;
    state = v.state;
    safe = v.safe;
    settled = v.settled;
  }
  Step-LoopInv cancel v = record {
    exclusive = v.exclusive;
    state = v.state;
    safe = v.safe;
    settled = v.settled;
  }
  Step-LoopInv (tick t) v = record {
    exclusive = v.exclusive;
    state = v.state;
    safe = v.safe;
    settled = v.settled;
  }
  Step-LoopInv (skip some_spawned held) v = record {
    exclusive = v.exclusive;
    state = v.state;
    safe = v.safe;
    settled = v.settled;
  }
  Step-LoopInv {l} (enter some_spawned open_lock) v = record {
    exclusive = ground (arith, v.exclusive);
    state = v.state;
    safe = v.safe;
    settled = v.settled;
  }
  Step-LoopInv {l} (body env course some_entered) v =
      let ((es, seen), kept) = iterate-Follows env course l.world v.settled in
      record {
        exclusive = ground (arith, v.exclusive);
        state = subst Inv (sym seen) (handle_all-Inv l.world.controller.state es v.state);
        safe = iterate-IsSafe env course l.world v.safe;
        settled = kept ∙ v.settled;
      }
  Step-LoopInv {l} (leave some_leaving) v = record {
    exclusive = ground (arith, v.exclusive);
    state = v.state;
    safe = v.safe;
    settled = v.settled;
  }

  Reach-LoopInv :
      {l k : Loop Q W} → LoopInv l → Reach fl sort e policy threshold prov l k → LoopInv k
  Reach-LoopInv v here = v
  Reach-LoopInv v (next r s) = Step-LoopInv s (Reach-LoopInv v r)

  -- In every state that the controller reaches from its start, whatever events, ticks and answers
  -- of the API come: at most one iteration is running, and the lock is held exactly while one is;
  -- node names are distinct and, while a pod is scheduled, usage is exact; each deletion in the
  -- history was allowed when it was made; and no node is counted as in flight.
  pub run-LoopInv :
      (m : Metrics) (w : W) (l : Loop Q W)
      → Reach fl sort e policy threshold prov (start_loop m w) l
      → LoopInv l
  run-LoopInv m w l r = Reach-LoopInv (start-LoopInv m w) r

  -- From every state that the controller reaches, the iteration that holds the lock can go on, for
  -- any answers of the API and any times, to a state in which the lock is free.
  run_frees_lock :
      (m : Metrics) (w : W) (l : Loop Q W)
      → Reach fl sort e policy threshold prov (start_loop m w) l
      → (env : Env Q) (course : Course Q)
      → (k : Loop Q W) × Reach fl sort e policy threshold prov l k × (k.mutex ≡ false)
  run_frees_lock m w l r env course = elim (Bool-cases l.mutex) [
    | inr is_free ↦ (l, here, is_free)
    | inl held ↦
        let one : (l.entered + l.leaving ≡ 1) = rw held at ((run-LoopInv m w l r).exclusive) in
        elim (dec_lt 0 l.leaving) [
          | yes out ↦ (_, next here (leave out), refl)
          | no inside ↦
              (_, next (next here (body env course (omega arith))) (leave (omega arith)), refl)
        ]
  ]
