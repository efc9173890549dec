-- ===== src/Monitor/PodResources.antt =====
-- autoscaler/pkg/monitor/pod_resources.go: the effective requests of a pod.
-- A resource list that is nil is an empty one.
pub mod Effective
use kubto.Prelude.{
  Bool, true, false, Option, none, some, List, [], ◌∷◌, String, str_eq, Assoc, lookup,
  if◌then◌else◌,
}
use kubto.Platform.{Quantity}
use kubto.Kube.{Container, Pod}
use kubto.Utils.{restart_always}

abbrev pub resource_cpu : String
resource_cpu = "cpu"

abbrev pub resource_memory : String
resource_memory = "memory"

unfoldable pub is_restartable_init_container : {Q : Type 0} → Container Q → Bool
is_restartable_init_container c = elim c.restart_policy [
  | none ↦ false
  | some policy ↦ str_eq policy restart_always
]

module _ {Q : Type 0} ⦃q : Quantity Q⦄ where
  -- The closures `add` and `maxQ`.
  abbrev pub add : Q → Assoc Q → String → Q
  add dst list name = elim (lookup name list) [ none ↦ dst | some v ↦ q.add dst v ]

  abbrev pub max_q : Q → Assoc Q → String → Q
  max_q dst list name = elim (lookup name list) [
    | none ↦ dst
    | some v ↦ if q.less dst v then v else dst
  ]

  unfoldable pub add_containers : Q × Q → List (Container Q) → Q × Q
  add_containers (cpu, mem) [] = (cpu, mem)
  add_containers (cpu, mem) (c ∷ cs) =
      add_containers (add cpu c.requests resource_cpu, add mem c.requests resource_memory) cs

  unfoldable pub add_restartable : Q × Q → List (Container Q) → Q × Q
  add_restartable (cpu, mem) [] = (cpu, mem)
  add_restartable (cpu, mem) (c ∷ cs) =
      add_restartable
        (if is_restartable_init_container c
          then (add cpu c.requests resource_cpu, add mem c.requests resource_memory)
          else (cpu, mem))
        cs

  unfoldable pub max_init : Q × Q → List (Container Q) → Q × Q
  max_init (cpu, mem) [] = (cpu, mem)
  max_init (cpu, mem) (c ∷ cs) =
      max_init
        (if is_restartable_init_container c
          then (cpu, mem)
          else (max_q cpu c.requests resource_cpu, max_q mem c.requests resource_memory))
        cs

  unfoldable pub pod_effective_requests : Pod Q → Q × Q
  unfolding add_containers add_restartable max_init
  pod_effective_requests pod =
      let regular = add_containers (q.empty, q.empty) pod.containers in
      let running = add_restartable regular pod.init_containers in
      let (cpu, mem) = max_init running pod.init_containers in
      (add cpu pod.overhead resource_cpu, add mem pod.overhead resource_memory)
