-- ===== src/Controller/Metrics/Collectors.antt =====
-- The registration of the metrics (`NewMetrics` and `Default` of
-- autoscaler/pkg/metrics/metrics.go). A collector is an object at an address, a registry a cell of
-- a heap; cell 0 is `prometheus.DefaultRegisterer`.
pub mod Registered
pub mod Twice
use kubto.Prelude.{
  ℕ, ◌+◌, ◌==◌, Bool, true, false, Option, none, some, List, [], ◌∷◌, String, if◌then◌else◌,
}

-- The buckets of a histogram are in thousandths of a second.
pub data MetricKind : Type 0 where
  gauge : MetricKind
  counter : MetricKind
  counter_vec : List String → MetricKind
  histogram : List ℕ → MetricKind

pub record Opts : Type 0 where
  pub name : String
  pub help : String
  pub kind : MetricKind

pub record Collector : Type 0 where
  pub address : ℕ
  pub opts : Opts

-- The fields of the struct `Metrics`.
pub record Handles : Type 0 where
  pub registry : ℕ
  pub pending_pods : Collector
  pub active_nodes : Collector
  pub estimated_required_nodes : Collector
  pub infeasible_pods : Collector
  pub scale_up_total : Collector
  pub scale_down_total : Collector
  pub nodes_provisioned_total : Collector
  pub nodes_terminated_total : Collector
  pub provision_failures_total : Collector
  pub scaling_decisions_total : Collector
  pub reconcile_duration : Collector
  pub provision_duration : Collector

abbrev collector : ℕ → String → String → MetricKind → Collector
collector address name help kind = record {
  address = address;
  opts = record { name = name; help = help; kind = kind };
}

-- The new objects of `NewMetrics`, at the addresses from `n` on.
unfoldable pub new_handles : ℕ → ℕ → Handles
new_handles registry n = record {
  registry = registry;
  pending_pods =
      collector n "kubto_pending_pods"
        "Current number of unschedulable pending pods observed by the autoscaler." gauge;
  active_nodes =
      collector (n + 1) "kubto_active_nodes"
        "Current number of ready, active worker nodes in the cluster." gauge;
  estimated_required_nodes =
      collector (n + 2) "kubto_estimated_required_nodes"
        "Estimated number of nodes required to satisfy pending pod demand." gauge;
  infeasible_pods =
      collector (n + 3) "kubto_infeasible_pods"
        "Current number of pending pods that cannot be satisfied by the single worker template or supported constraints."
        gauge;
  scale_up_total =
      collector (n + 4) "kubto_scale_up_total" "Total number of scale-up operations initiated."
        counter;
  scale_down_total =
      collector (n + 5) "kubto_scale_down_total" "Total number of scale-down operations initiated."
        counter;
  nodes_provisioned_total =
      collector (n + 6) "kubto_nodes_provisioned_total"
        "Total number of worker nodes successfully provisioned." counter;
  nodes_terminated_total =
      collector (n + 7) "kubto_nodes_terminated_total"
        "Total number of worker nodes successfully drained and terminated." counter;
  provision_failures_total =
      collector (n + 8) "kubto_provision_failures_total"
        "Total number of worker node provisioning failures encountered." counter;
  scaling_decisions_total =
      collector (n + 9) "kubto_scaling_decisions_total"
        "Total scaling policy decisions made, partitioned by decision outcome."
        (counter_vec ("decision" ∷ []));
  reconcile_duration =
      collector (n + 10) "kubto_reconcile_duration_seconds"
        "Histogram of reconcile iteration durations in seconds."
        (histogram (5 ∷ 10 ∷ 25 ∷ 50 ∷ 100 ∷ 250 ∷ 500 ∷ 1000 ∷ 2500 ∷ 5000 ∷ 10_000 ∷ []));
  provision_duration =
      collector (n + 11) "kubto_provision_duration_seconds"
        "Histogram of node provisioning durations in seconds."
        (histogram (1000 ∷ 5000 ∷ 10_000 ∷ 30_000 ∷ 60_000 ∷ 120_000 ∷ 180_000 ∷ 300_000 ∷ []));
}

unfoldable pub collectors_of : Handles → List Collector
collectors_of m =
    m.pending_pods ∷ m.active_nodes ∷ m.estimated_required_nodes ∷ m.infeasible_pods
    ∷ m.scale_up_total ∷ m.scale_down_total ∷ m.nodes_provisioned_total ∷ m.nodes_terminated_total
    ∷ m.provision_failures_total ∷ m.scaling_decisions_total ∷ m.reconcile_duration
    ∷ m.provision_duration ∷ []

-- What `Register` returns: no error, an `AlreadyRegisteredError`, or another error.
pub data Registration : Type 0 where
  registered already_registered refused : Registration

abbrev is_refused : Registration → Bool
is_refused refused = true
is_refused _ = false

-- The library's registry, with the state `R`.
pub record Registerer (R : Type 0) : Type 0 where
  pub register : R → Collector → Registration × R

-- The process: its registries, the next free address, and the variables `once` and `reg`.
pub record Process (R : Type 0) : Type 0 where
  pub registries : ℕ → R
  pub next_address : ℕ
  pub once : Bool
  pub reg : Option Handles

-- The registry at `k` becomes `r`.
abbrev pub put : {R : Type 0} → ℕ → R → Process R → Process R
put k r p = record p { registries = λ j. if j == k then r else p.registries j }

abbrev default_registerer : ℕ
default_registerer = 0

abbrev pub registerer_or_default : Option ℕ → ℕ
registerer_or_default none = default_registerer
registerer_or_default (some k) = k

-- `panicked` is a panic.
pub data Made (A : Type 0) : Type 0 where
  made : A → Made A
  panicked : Made A

module _ {R : Type 0} (lib : Registerer R) where
  -- The loop over the collectors. `false` is a panic.
  unfoldable pub register_all : List Collector → R → Bool × R
  register_all [] r = (true, r)
  register_all (c ∷ cs) r =
      let (answer, t) = lib.register r c in
      let rest = register_all cs t in if is_refused answer then (false, t) else rest

  unfoldable pub create_metrics : Option ℕ → Process R → Made Handles × Process R
  create_metrics registerer p =
      let k = registerer_or_default registerer in
      let m = new_handles k p.next_address in
      let (fine, r) = register_all (collectors_of m) (p.registries k) in
      let q = put k r (record p { next_address = p.next_address + 12 }) in
      (if fine then made m else panicked, q)

  abbrev keep_made : Made Handles × Process R → Made (Option Handles) × Process R
  keep_made (made m, p) = (made (some m), record p { reg = some m })
  keep_made (panicked, p) = (panicked, p)

  -- `once.Do` runs its function once, even if that panics; then `reg` stays nil.
  unfoldable pub default_metrics : Process R → Made (Option Handles) × Process R
  unfolding create_metrics
  default_metrics p =
      let first = keep_made (create_metrics none (record p { once = true })) in
      if p.once then (made p.reg, p) else first
