-- ===== src/Controller/Scaling.antt =====
-- The state of the controller and its two handlers (autoscaler_controller.go). A time is read from
-- the clock where the argument `now` or `later` stands. A nil metrics collector is `none`.
use kubto.Prelude.{
  ℕ, zero, suc, ◌^◌, ◌-◌, ◌*◌, leb, not, Option, none, some, String, length, select, if◌then◌else◌,
  add64, sub64, mul64, neg64, lt64, le64, sub_time, add_time, zero_time,
}
use kubto.Utils.{second, default_scale_up_cooldown, default_scale_down_cooldown}
use kubto.Monitor.Types.{ClusterState}
use kubto.Decision.{Decision}
use kubto.Provisioner.{Creation, created, creation_failed, NodeProvisioner}
use kubto.Lifecycle.Api.{History, Env}
use kubto.Lifecycle.Removal.{RemoveError, remove_node}
use kubto.Controller.Metrics.{
  Metrics, inc_scale_up, inc_scale_down, inc_nodes_provisioned, inc_nodes_terminated,
  inc_provision_failure, record_provision_duration,
}

pub record AutoscalerController (Q : Type 0) : Type 0 where
  pub state : ClusterState Q
  pub metrics : Option Metrics
  pub reconcile_interval : ℕ
  pub scale_up_cooldown : ℕ
  pub scale_down_cooldown : ℕ
  pub last_scale_up : ℕ
  pub last_scale_down : ℕ
  pub in_flight_provisioning : ℕ
  pub scale_up_failures : ℕ

unfoldable pub new_autoscaler_controller :
    {Q : Type 0} → ClusterState Q → Metrics → AutoscalerController Q
new_autoscaler_controller state m = record {
  state = state;
  metrics = some m;
  reconcile_interval = 10 * second;
  scale_up_cooldown = default_scale_up_cooldown;
  scale_down_cooldown = default_scale_down_cooldown;
  last_scale_up = zero_time;
  last_scale_down = zero_time;
  in_flight_provisioning = 0;
  scale_up_failures = 0;
}

module _ {Q : Type 0} where
  unfoldable set_metrics : Option Metrics → AutoscalerController Q → AutoscalerController Q
  set_metrics m c = record c { metrics = m }

  unfoldable set_scale_up_cooldown : ℕ → AutoscalerController Q → AutoscalerController Q
  set_scale_up_cooldown d c = record c { scale_up_cooldown = d }

  unfoldable set_scale_down_cooldown : ℕ → AutoscalerController Q → AutoscalerController Q
  set_scale_down_cooldown d c = record c { scale_down_cooldown = d }

  unfoldable set_reconcile_interval : ℕ → AutoscalerController Q → AutoscalerController Q
  set_reconcile_interval d c = record c { reconcile_interval = d }

-- `if c.metrics != nil { … }`.
abbrev pub with_metrics : (Metrics → Metrics) → Option Metrics → Option Metrics
with_metrics f none = none
with_metrics f (some m) = some (f m)

-- `1 << k`.
unfoldable pub shl64_one : ℕ → ℕ
shl64_one k = if leb 64 k then 0 else 2 ^ k

-- The backoff after that many failures, in nanoseconds.
unfoldable pub backoff : ℕ → ℕ
backoff failures =
    let backoff_seconds = mul64 5 (shl64_one (failures - 1)) in
    mul64 (if lt64 60 backoff_seconds then 60 else backoff_seconds) 1_000_000_000

-- The variables of the provisioning loop.
pub record Attempts (W : Type 0) : Type 0 where
  pub success_count : ℕ
  pub failures : ℕ
  pub loop_metrics : Option Metrics
  pub world : W

module _ {W : Type 0} where
  unfoldable pub note_creation : Attempts W → Creation × W → Attempts W
  note_creation a (created name, w) = record a {
    success_count = add64 a.success_count 1;
    loop_metrics =
        with_metrics (λ m. record_provision_duration (inc_nodes_provisioned 1 m)) a.loop_metrics;
    world = w;
  }
  note_creation a (creation_failed e, w) = record a {
    failures = add64 a.failures 1;
    loop_metrics = with_metrics inc_provision_failure a.loop_metrics;
    world = w;
  }

  unfoldable pub provision : NodeProvisioner W → ℕ → Attempts W → Attempts W
  provision prov zero a = a
  provision prov (suc n) a = provision prov n (note_creation a (prov.create_node a.world))

module _ {Q : Type 0} where
  unfoldable pub unready_count : ClusterState Q → ℕ
  unready_count state = length (select (λ n. not n.ready) state.nodes)

  -- The end of `handleScaleUp`, after the loop.
  unfoldable pub settle :
      {W : Type 0} → ℕ → Attempts W → AutoscalerController Q → AutoscalerController Q
  settle later a c =
      let counted = record c { scale_up_failures = a.failures; metrics = a.loop_metrics } in
      if lt64 0 a.success_count
      then record counted { last_scale_up = later; scale_up_failures = 0 }
      else if lt64 0 a.failures
      then record counted {
        last_scale_up = add_time later (add64 (neg64 c.scale_up_cooldown) (backoff a.failures));
      }
      else counted

  unfoldable pub handle_scale_up :
      {W : Type 0}
      → NodeProvisioner W
      → ℕ
      → ℕ
      → Decision
      → AutoscalerController Q
      → W
      → AutoscalerController Q × W
  handle_scale_up prov now later dec c w =
      let already = add64 c.in_flight_provisioning (unready_count c.state) in
      let to_provision = sub64 dec.count already in
      let in_flight = add64 c.in_flight_provisioning to_provision in
      let a = provision prov to_provision (record {
        success_count = 0;
        failures = c.scale_up_failures;
        loop_metrics = with_metrics inc_scale_up c.metrics;
        world = w;
      }) in
      if lt64 (sub_time now c.last_scale_up) c.scale_up_cooldown
      then (c, w)
      else if le64 to_provision 0
      then (c, w)
      else (
        settle later a (record c { in_flight_provisioning = sub64 in_flight to_provision }),
        a.world,
      )

  -- `SetProvisioner`, and the same assignment in `NewAutoscalerController`: the hook of the cleanup
  -- is the provisioner's `TerminateNode`.
  unfoldable pub set_provisioner : {W : Type 0} → NodeProvisioner W → W → Env Q → Env Q
  set_provisioner prov w env = record env {
    cleanup_hook = some (λ h name. (prov.terminate_node w name).0);
  }

  -- The end of `handleScaleDown`. The removal ran the hook exactly where it returns no error, so
  -- there the provisioner is left by `TerminateNode`.
  unfoldable pub note_removal :
      {W : Type 0}
      → NodeProvisioner W
      → ℕ
      → String
      → AutoscalerController Q
      → W
      → Option RemoveError × History Q
      → AutoscalerController Q × W × History Q
  note_removal prov later name c w (some e, h) = (c, w, h)
  note_removal prov later name c w (none, h) = (
    record c { last_scale_down = later; metrics = with_metrics inc_nodes_terminated c.metrics },
    (prov.terminate_node w name).1,
    h,
  )

  unfoldable pub handle_scale_down :
      {W : Type 0}
      → NodeProvisioner W
      → Env Q
      → ℕ
      → ℕ
      → String
      → AutoscalerController Q
      → W
      → History Q
      → AutoscalerController Q × W × History Q
  handle_scale_down prov env now later name c w h =
      let counted = record c { metrics = with_metrics inc_scale_down c.metrics } in
      if lt64 (sub_time now c.last_scale_down) c.scale_down_cooldown
      then (c, w, h)
      else note_removal prov later name counted w (remove_node (set_provisioner prov w env) name h)
