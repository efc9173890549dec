-- ===== src/Controller/Loop/Waiting.antt =====
-- Before both caches are filled, the controller touches nothing.
use kubto.Prelude.{◌≡◌, refl, ◌&&◌, true, false, [], arith}
use kubto.Platform.{Quantity, Float64}
use kubto.Estimator.Packing.{ResourceEstimator}
use kubto.Estimator.Estimate.{Sorter}
use kubto.Decision.{ThresholdPolicy}
use kubto.Provisioner.{NodeProvisioner}
use kubto.Controller.Metrics.{Metrics}
use kubto.Controller.Loop.{
  ticking, Loop, start_loop, Step, event, pods_sync, nodes_sync, synced, cancel, tick, skip, enter,
  body, leave, Reach, here, next,
}

module _ {Q W : Type 0} (w : W) where
  -- No goroutine of a tick is there, the provisioner is as at the start, and no call was made.
  abbrev pub IsQuiet : Loop Q W → Type 0
  IsQuiet l =
      (l.spawned ≡ 0)
      × (l.entered ≡ 0)
      × (l.leaving ≡ 0)
      × (l.world.provisioner ≡ w)
      × (l.world.history ≡ [])

  record Waits (l : Loop Q W) : Type 0 where
    filled : l.phase ≡ ticking → l.pods_synced && l.nodes_synced ≡ true
    quiet : l.pods_synced && l.nodes_synced ≡ false → IsQuiet l

module _ {Q F W : Type 0} ⦃q : Quantity Q⦄ (fl : Float64 F) (sort : Sorter Q F)
    (e : ResourceEstimator) (policy : ThresholdPolicy F) (threshold : F) (prov : NodeProvisioner W)
    (w : W) where
  start-Waits : (m : Metrics) → Waits w (start_loop {Q = Q} m w)
  start-Waits m = record { filled = λ t. cc; quiet = λ u. (refl, refl, refl, refl, refl) }

  Step-Waits : {l k : Loop Q W} → Step fl sort e policy threshold prov l k → Waits w l → Waits w k
  Step-Waits (event ev) v = record { filled = v.filled; quiet = v.quiet }
  Step-Waits {l} pods_sync v = record {
    filled = λ t. ground (arith, v.filled t);
    quiet = λ u. v.quiet (ground (arith, u));
  }
  Step-Waits {l} nodes_sync v = record {
    filled = λ t. ground (arith, v.filled t);
    quiet = λ u. v.quiet (ground (arith, u));
  }
  Step-Waits (synced p a b) v = record { filled = λ t. rw (a, b) refl; quiet = v.quiet }
  Step-Waits cancel v = record { filled = λ t. cc; quiet = v.quiet }
  Step-Waits (tick t) v = record { filled = v.filled; quiet = λ u. cc (v.filled t, u) }
  Step-Waits (skip s m) v = record {
    filled = v.filled;
    quiet = λ u. let (none_spawned, _, _, _, _) = v.quiet u in absurd (omega arith);
  }
  Step-Waits (enter s m) v = record {
    filled = v.filled;
    quiet = λ u. let (none_spawned, _, _, _, _) = v.quiet u in absurd (omega arith);
  }
  Step-Waits (body env course s) v = record {
    filled = v.filled;
    quiet = λ u. let (_, none_entered, _, _, _) = v.quiet u in absurd (omega arith);
  }
  Step-Waits (leave s) v = record {
    filled = v.filled;
    quiet = λ u. let (_, _, none_leaving, _, _) = v.quiet u in absurd (omega arith);
  }

  Reach-Waits : {l k : Loop Q W} → Waits w l → Reach fl sort e policy threshold prov l k → Waits w k
  Reach-Waits v here = v
  Reach-Waits v (next r s) = Step-Waits s (Reach-Waits v r)

  -- As long as one of the two caches has not been filled, whatever the informers report: no
  -- iteration has been started, the provisioner is as at the start, and no call of the lifecycle
  -- manager was made.
  pub run_waits-IsQuiet :
      (m : Metrics) (l : Loop Q W)
      → Reach fl sort e policy threshold prov (start_loop m w) l
      → l.pods_synced && l.nodes_synced ≡ false
      → IsQuiet w l
  run_waits-IsQuiet m l r unfilled = (Reach-Waits (start-Waits m) r).quiet unfilled
