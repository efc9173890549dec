-- ===== src/Decision/Engine.antt =====
-- `ScalingPolicy` (autoscaler/pkg/decision/scaling_policy.go) and `DecisionEngine` with its
-- constructor (decision_engine.go).
use kubto.Prelude.{ℕ, ◌≡◌, refl, String, Bool}
use kubto.Platform.{Quantity, Float64}
use kubto.Monitor.Types.{ClusterState}
use kubto.Estimator.Packing.{ResourceDelta}
use kubto.Decision.{Decision, ThresholdPolicy, has_critical_pods, evaluate, decide}

pub record ScalingPolicy (Q : Type 0) : Type 0 where
  pub evaluates : ResourceDelta → ClusterState Q → Decision
  pub has_critical : String → Bool

pub record DecisionEngine (Q : Type 0) : Type 0 where
  pub policy : ScalingPolicy Q

unfoldable pub new_decision_engine : {Q : Type 0} → ScalingPolicy Q → DecisionEngine Q
new_decision_engine policy = record { policy = policy }

module _ {Q F : Type 0} ⦃q : Quantity Q⦄ (fl : Float64 F) (now : ℕ) where
  -- `ThresholdPolicy` as a `ScalingPolicy`, at a time of the clock.
  unfoldable pub threshold_scaling : ThresholdPolicy F → ScalingPolicy Q
  threshold_scaling p = record { evaluates = evaluate fl p now; has_critical = has_critical_pods p }

  -- `Decide` of an engine on a `ThresholdPolicy`.
  pub engine-decide :
      (p : ThresholdPolicy F) (delta : ResourceDelta) (state : ClusterState Q)
      → (new_decision_engine (threshold_scaling p)).policy.evaluates delta state
        ≡ decide fl p now delta state
  unfolding new_decision_engine threshold_scaling decide
  engine-decide p delta state = refl
