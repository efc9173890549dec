-- ===== src/Monitor/PodResources/Effective.antt =====
-- The computed requests, against the formula of the code's comment and against the one that
-- Kubernetes documents for sidecars, where an init container runs beside the sidecars before it.
use kubto.Prelude.{
  ℕ, ◌+◌, max, ◌≡◌, ◌≤◌, refl, true, All, none, some, List, [], ◌∷◌, String, Assoc, lookup,
  if◌then◌else◌, arith, Option-cases, Bool-cases, inl, inr,
}
use kubto.Platform.{Quantity, Denotes}
use kubto.Kube.{Container, Pod}
use kubto.Monitor.PodResources.{
  resource_cpu, resource_memory, is_restartable_init_container, add, max_q, add_containers,
  add_restartable, max_init, pod_effective_requests,
}

module _ {Q : Type 0} where
  -- No other init container stands after a sidecar.
  abbrev pub SidecarsLast : List (Container Q) → Type 0
  SidecarsLast [] = Unit {0}
  SidecarsLast (c ∷ cs) =
      (is_restartable_init_container c ≡ true
        → All (λ b. is_restartable_init_container b ≡ true) cs)
      × SidecarsLast cs

module _ {Q : Type 0} ⦃q : Quantity Q⦄ (amount : Q → ℕ) where
  -- What a resource list asks of a resource; an entry that is missing asks nothing.
  abbrev pub asked : String → Assoc Q → ℕ
  asked r list = elim (lookup r list) [ none ↦ 0 | some v ↦ amount v ]

  -- The requests of all containers, of the restartable ones, and the largest of the others.
  abbrev pub total : String → List (Container Q) → ℕ
  total r [] = 0
  total r (c ∷ cs) = asked r c.requests + total r cs

  abbrev pub sidecars : String → List (Container Q) → ℕ
  sidecars r [] = 0
  sidecars r (c ∷ cs) =
      (if is_restartable_init_container c then asked r c.requests else 0) + sidecars r cs

  abbrev peak : String → List (Container Q) → ℕ
  peak r [] = 0
  peak r (c ∷ cs) =
      max (if is_restartable_init_container c then 0 else asked r c.requests) (peak r cs)

  -- The formula of the comment on `podEffectiveRequests`.
  abbrev pub effective : String → Pod Q → ℕ
  effective r pod =
      max (total r pod.containers + sidecars r pod.init_containers) (peak r pod.init_containers)
      + asked r pod.overhead

  -- The largest request of an init container that is not a sidecar, together with those of the
  -- sidecars before it; `before` is what earlier sidecars ask for.
  abbrev pub start_peak : ℕ → String → List (Container Q) → ℕ
  start_peak before r [] = 0
  start_peak before r (c ∷ cs) =
      if is_restartable_init_container c
      then start_peak (before + asked r c.requests) r cs
      else max (before + asked r c.requests) (start_peak before r cs)

  -- The formula that Kubernetes documents for pods with sidecars.
  abbrev pub scheduled : String → Pod Q → ℕ
  scheduled r pod =
      max (total r pod.containers + sidecars r pod.init_containers)
        (start_peak 0 r pod.init_containers)
      + asked r pod.overhead

  peak-le-start_peak :
      (before : ℕ) (r : String) (cs : List (Container Q)) → peak r cs ≤ start_peak before r cs
  peak-le-start_peak before r [] = omega arith
  peak-le-start_peak before r (c ∷ cs) = elim (Bool-cases (is_restartable_init_container c)) [
    | inl e ↦ rw e (omega (arith, peak-le-start_peak (before + asked r c.requests) r cs))
    | inr e ↦ rw e (omega (arith, peak-le-start_peak before r cs))
  ]

  start_peak-sidecars :
      (before : ℕ) (r : String) (cs : List (Container Q))
      → All (λ b. is_restartable_init_container b ≡ true) cs
      → (start_peak before r cs ≡ 0) × (peak r cs ≡ 0)
  start_peak-sidecars before r [] all = (refl, refl)
  start_peak-sidecars before r (c ∷ cs) all =
      let rest = start_peak-sidecars (before + asked r c.requests) r cs all.1 in
      rw (all.0) (omega (arith, rest))

  start_peak-eq-peak :
      (r : String) (cs : List (Container Q)) → SidecarsLast cs → start_peak 0 r cs ≡ peak r cs
  start_peak-eq-peak r [] last = refl
  start_peak-eq-peak r (c ∷ cs) last = elim (Bool-cases (is_restartable_init_container c)) [
    | inl e ↦
        let rest = start_peak-sidecars (0 + asked r c.requests) r cs (last.0 e) in
        rw e (omega (arith, rest))
    | inr e ↦ rw e (omega (arith, start_peak-eq-peak r cs last.1))
  ]

module _ {Q : Type 0} ⦃q : Quantity Q⦄ (amount : Q → ℕ) (d : Denotes amount) where
  amount_of_add :
      (dst : Q) (list : Assoc Q) (r : String)
      → amount (add dst list r) ≡ amount dst + asked amount r list
  amount_of_add dst list r = elim (Option-cases (lookup r list)) [
    | inl e ↦ ground arith
    | inr (v, e) ↦ ground (arith, d.amount-add dst v)
  ]

  amount_of_max :
      (dst : Q) (list : Assoc Q) (r : String)
      → amount (max_q dst list r) ≡ max (amount dst) (asked amount r list)
  amount_of_max dst list r = elim (Option-cases (lookup r list)) [
    | inl e ↦ ground arith
    | inr (v, e) ↦ ground (arith, d.less-ltb dst v)
  ]

  add_containers-total :
      (a b : Q) (cs : List (Container Q))
      → (amount (add_containers (a, b) cs).0 ≡ amount a + total amount resource_cpu cs)
        × (amount (add_containers (a, b) cs).1 ≡ amount b + total amount resource_memory cs)
  unfolding add_containers
  add_containers-total a b [] = omega arith
  add_containers-total a b (c ∷ cs) =
      let cpu = add a c.requests resource_cpu in
      let mem = add b c.requests resource_memory in
      omega (
        arith,
        add_containers-total cpu mem cs,
        amount_of_add a c.requests resource_cpu,
        amount_of_add b c.requests resource_memory,
      )

  add_restartable-sidecars :
      (a b : Q) (cs : List (Container Q))
      → (amount (add_restartable (a, b) cs).0 ≡ amount a + sidecars amount resource_cpu cs)
        × (amount (add_restartable (a, b) cs).1 ≡ amount b + sidecars amount resource_memory cs)
  unfolding add_restartable
  add_restartable-sidecars a b [] = omega arith
  add_restartable-sidecars a b (c ∷ cs) = elim (Bool-cases (is_restartable_init_container c)) [
    | inl e ↦
        let cpu = add a c.requests resource_cpu in
        let mem = add b c.requests resource_memory in
        rw e (
          omega (
            arith,
            add_restartable-sidecars cpu mem cs,
            amount_of_add a c.requests resource_cpu,
            amount_of_add b c.requests resource_memory,
          ))
    | inr e ↦ rw e (omega (arith, add_restartable-sidecars a b cs))
  ]

  max_init-peak :
      (a b : Q) (cs : List (Container Q))
      → (amount (max_init (a, b) cs).0 ≡ max (amount a) (peak amount resource_cpu cs))
        × (amount (max_init (a, b) cs).1 ≡ max (amount b) (peak amount resource_memory cs))
  unfolding max_init
  max_init-peak a b [] = omega arith
  max_init-peak a b (c ∷ cs) = elim (Bool-cases (is_restartable_init_container c)) [
    | inl e ↦ rw e (omega (arith, max_init-peak a b cs))
    | inr e ↦
        let cpu = max_q a c.requests resource_cpu in
        let mem = max_q b c.requests resource_memory in
        rw e (
          omega (
            arith,
            max_init-peak cpu mem cs,
            amount_of_max a c.requests resource_cpu,
            amount_of_max b c.requests resource_memory,
          ))
  ]

  -- For quantities that denote numbers, the requests that are computed for a pod are, in both
  -- resources, what the code's comment says: the larger of the sum over the regular containers and
  -- the sidecars, and of each other init container, plus the overhead.
  pub requests-effective :
      (pod : Pod Q)
      → (amount (pod_effective_requests pod).0 ≡ effective amount resource_cpu pod)
        × (amount (pod_effective_requests pod).1 ≡ effective amount resource_memory pod)
  unfolding pod_effective_requests
  requests-effective pod =
      let regular = add_containers (q.empty, q.empty) pod.containers in
      let running = add_restartable regular pod.init_containers in
      let most = max_init running pod.init_containers in
      omega (
        arith,
        d.amount-empty,
        add_containers-total q.empty q.empty pod.containers,
        add_restartable-sidecars regular.0 regular.1 pod.init_containers,
        max_init-peak running.0 running.1 pod.init_containers,
        amount_of_add most.0 pod.overhead resource_cpu,
        amount_of_add most.1 pod.overhead resource_memory,
      )

  -- For quantities that denote numbers: in both resources the requests that are computed for a pod
  -- are never more than by the formula that Kubernetes documents for sidecars, in which an init
  -- container runs beside the sidecars that stand before it; and they are the same where no other
  -- init container stands after a sidecar.
  pub requests-within_scheduled :
      (pod : Pod Q)
      → let r = pod_effective_requests pod in
        let cpu = scheduled amount resource_cpu pod in
        let mem = scheduled amount resource_memory pod in
        (amount r.0 ≤ cpu)
        × (amount r.1 ≤ mem)
        × (SidecarsLast pod.init_containers → (amount r.0 ≡ cpu) × (amount r.1 ≡ mem))
  requests-within_scheduled pod =
      let inits = pod.init_containers in
      let same = requests-effective pod in
      (
        omega (arith, same, peak-le-start_peak amount 0 resource_cpu inits),
        omega (arith, same, peak-le-start_peak amount 0 resource_memory inits),
        λ last. omega (
          arith,
          same,
          start_peak-eq-peak amount resource_cpu inits last,
          start_peak-eq-peak amount resource_memory inits last,
        ),
      )
