-- ===== src/Estimator/Estimate/Deficit.antt =====
-- The reported shortfall against the requests of the pods that went to new nodes.
use kubto.Prelude.{
  ◌*◌, length, ℕ, zero, suc, ◌+◌, ◌-◌, ◌%◌, ◌^◌, ◌≤◌, ◌<◌, ◌≡◌, refl, some, List, [], ◌∷◌, ◌++◌,
  get_elem?, modify, All, All-append, arith, if◌then◌else◌, sub64_of_le, sub64, add64, subst, sym,
}
use mathlib.Core.Option.{some-injective}
use kubto.Estimator.Bins.{SimulatedNode, PodCandidate, take_capacity}
use kubto.Estimator.Bins.BestFit.{IsBin, IsRequest}
use kubto.Estimator.Packing.{
  ResourceEstimator, ResourceDelta, Outcome, on_existing, on_new, opened, too_large, incompatible,
  Packing, choose, commit, new_node, pack,
}
use kubto.Estimator.Packing.Choice.{Chosen, choose-Chosen}
use kubto.Estimator.Packing.Trace.{
  Resource, cpu, mem, free, request, capacity, IsTemplate, trace, on_any_new, held, IsInRange,
}
use kubto.Estimator.Packing.Capacity.{
  Fits, free-take_capacity, Found-Fits, new_node-free, commit-IsInRange,
}
use kubto.Estimator.Estimate.{shortfall, no_delta}

abbrev pub amount : Resource → ResourceDelta → ℕ
amount cpu d = d.cpu_millicores
amount mem d = d.memory_bytes

-- No new node has more free than the template has.
abbrev pub IsOpened : ResourceEstimator → SimulatedNode → Type 0
IsOpened e n =
    (n.free_cpu ≤ e.node_cpu_capacity_millicores) × (n.free_mem ≤ e.node_memory_capacity_bytes)

-- What the new nodes hold in all.
abbrev pub spent : Resource → ResourceEstimator → List SimulatedNode → ℕ
spent s e [] = 0
spent s e (n ∷ ns) = (capacity s e - free s n) + spent s e ns

-- One round of the loop over the new nodes.
abbrev add_node : ResourceEstimator → ResourceDelta → SimulatedNode → ResourceDelta
add_node e d n = record {
  cpu_millicores = add64 d.cpu_millicores (sub64 e.node_cpu_capacity_millicores n.free_cpu);
  memory_bytes = add64 d.memory_bytes (sub64 e.node_memory_capacity_bytes n.free_mem);
}

amount-no_delta : (s : Resource) → amount s no_delta ≡ 0
amount-no_delta cpu = refl
amount-no_delta mem = refl

module _ (e : ResourceEstimator) (t : IsTemplate e) where
  amount-add_node :
      (s : Resource) (n : SimulatedNode) (d : ResourceDelta)
      → IsOpened e n
      → amount s (add_node e d n) ≡ (amount s d + (capacity s e - free s n)) % 2 ^ 64
  unfolding add64
  amount-add_node cpu n d o =
      omega (arith, t.cpu, sub64_of_le e.node_cpu_capacity_millicores n.free_cpu o.0)
  amount-add_node mem n d o =
      omega (arith, t.mem, sub64_of_le e.node_memory_capacity_bytes n.free_mem o.1)

  shortfall-spent :
      (s : Resource) (ns : List SimulatedNode) (d : ResourceDelta)
      → All (IsOpened e) ns
      → amount s d < 2 ^ 64
      → amount s (shortfall e d ns) ≡ (amount s d + spent s e ns) % 2 ^ 64
  unfolding shortfall
  shortfall-spent s [] d o h = omega arith
  shortfall-spent s (n ∷ ns) d o h =
      let one = amount-add_node s n d o.0 in
      omega (arith, one, shortfall-spent s ns (add_node e d n) o.1 (omega (arith, one)))

  free-le-capacity : (s : Resource) (n : SimulatedNode) → IsOpened e n → free s n ≤ capacity s e
  free-le-capacity cpu n o = o.0
  free-le-capacity mem n o = o.1

  spent-append :
      (s : Resource) (ns : List SimulatedNode) (n : SimulatedNode)
      → spent s e (ns ++ n ∷ []) ≡ spent s e ns + (capacity s e - free s n)
  spent-append s [] n = omega arith
  spent-append s (m ∷ ns) n = omega (arith, spent-append s ns n)

  module _ {Q F : Type 0} (pc : PodCandidate Q F) where
    take-IsOpened :
        (n : SimulatedNode) → IsBin n → Fits pc n → IsOpened e n → IsOpened e (take_capacity pc n)
    take-IsOpened n b f o = (
      omega (arith, free-take_capacity pc cpu n b f, o.0),
      omega (arith, free-take_capacity pc mem n b f, o.1),
    )

    modify-IsOpened :
        (ns : List SimulatedNode) (i : ℕ) (n : SimulatedNode)
        → All IsBin ns
        → All (IsOpened e) ns
        → get_elem? ns i ≡ some n
        → Fits pc n
        → All (IsOpened e) (modify ns i (take_capacity pc))
    modify-IsOpened [] i n b o g f = tt
    modify-IsOpened (m ∷ ns) zero n b o g f =
        (take-IsOpened m b.0 (subst (Fits pc) (sym (some-injective _ _ g)) f) o.0, o.1)
    modify-IsOpened (m ∷ ns) (suc i) n b o g f = (o.0, modify-IsOpened ns i n b.1 o.1 g f)

    spent-modify :
        (s : Resource) (ns : List SimulatedNode) (i : ℕ) (n : SimulatedNode)
        → All IsBin ns
        → All (IsOpened e) ns
        → get_elem? ns i ≡ some n
        → Fits pc n
        → spent s e (modify ns i (take_capacity pc)) ≡ spent s e ns + request s pc
    spent-modify s [] i n b o g f = cc
    spent-modify s (m ∷ ns) zero n b o g f =
        let fm = subst (Fits pc) (sym (some-injective _ _ g)) f in
        omega (arith, free-take_capacity pc s m b.0 fm, free-le-capacity s m o.0)
    spent-modify s (m ∷ ns) (suc i) n b o g f = omega (arith, spent-modify s ns i n b.1 o.1 g f)

  module _ {Q F : Type 0} (st : Packing) (v : IsInRange st) (o : All (IsOpened e) st.open_new_nodes)
      (pc : PodCandidate Q F) (r : IsRequest pc) where
    commit-spent :
        (out : Outcome)
        → Chosen e st pc out
        → All (IsOpened e) (commit e st pc out).open_new_nodes
          × ((s : Resource)
              → spent s e (commit e st pc out).open_new_nodes
                ≡ spent s e st.open_new_nodes + (if on_any_new out then request s pc else 0))
    unfolding commit
    commit-spent (on_existing i) c = (o, λ s. omega arith)
    commit-spent (on_new j) c =
        let ns = st.open_new_nodes in
        let (n, g, f) = Found-Fits e t pc r ns j v.open_new_nodes c.1 in
        (
          modify-IsOpened pc ns j n v.open_new_nodes o g f,
          λ s. spent-modify pc s ns j n v.open_new_nodes o g f,
        )
    commit-spent (opened k) c =
        let ns = st.open_new_nodes in
        let free_new = λ (s : Resource). new_node-free e t st v pc r k s c.3 c.4 in
        (
          All-append (IsOpened e) ns (new_node e k pc ∷ []) o
              ((omega (arith, free_new cpu), omega (arith, free_new mem)), tt),
          λ s. omega (arith, spent-append s ns (new_node e k pc), free_new s),
        )
    commit-spent too_large c = (o, λ s. omega arith)
    commit-spent incompatible c = (o, λ s. omega arith)

  pub pack-spent :
      {Q F : Type 0} (st : Packing) (pcs : List (PodCandidate Q F))
      → IsInRange st
      → All (IsOpened e) st.open_new_nodes
      → All IsRequest pcs
      → All (IsOpened e) (pack e st pcs).open_new_nodes
        × ((s : Resource)
            → spent s e (pack e st pcs).open_new_nodes
              ≡ spent s e st.open_new_nodes + held s on_any_new (trace e st pcs))
  unfolding pack
  pack-spent st [] v o r = (o, λ s. omega arith)
  pack-spent st (pc ∷ pcs) v o r =
      let out = choose e st pc in
      let c = choose-Chosen e t st pc v r.0 in
      let one = commit-spent st v o pc r.0 out c in
      let rest =
        pack-spent (commit e st pc out) pcs (commit-IsInRange e t st v pc r.0 out c) one.0 r.1 in
      (rest.0, λ s. omega (arith, one.1 s, rest.1 s))

  -- From no new node: the shortfall is what was asked by the pods that went to new nodes.
  pub shortfall-held :
      {Q F : Type 0} (st : Packing) (pcs : List (PodCandidate Q F)) (s : Resource)
      → IsInRange st
      → st.open_new_nodes ≡ []
      → All IsRequest pcs
      → amount s (shortfall e no_delta (pack e st pcs).open_new_nodes)
        ≡ held s on_any_new (trace e st pcs) % 2 ^ 64
  shortfall-held st pcs s v h r =
      let none_held : spent s e st.open_new_nodes ≡ 0 = rw h in
      let none_open : All (IsOpened e) st.open_new_nodes = rw h tt in
      let done = pack-spent st pcs v none_open r in
      let zero_delta = amount-no_delta s in
      omega (
        arith,
        none_held,
        zero_delta,
        done.1 s,
        shortfall-spent s (pack e st pcs).open_new_nodes no_delta done.0
            (omega (arith, zero_delta)),
      )

  spent-le : (s : Resource) (ns : List SimulatedNode) → spent s e ns ≤ length ns * capacity s e
  spent-le s [] = omega arith
  spent-le s (n ∷ ns) = grind (arith, spent-le s ns)

  -- From no new node: the shortfall is no more than the new nodes have in all.
  pub shortfall-le :
      {Q F : Type 0} (st : Packing) (pcs : List (PodCandidate Q F)) (s : Resource)
      → IsInRange st
      → st.open_new_nodes ≡ []
      → All IsRequest pcs
      → let ns = (pack e st pcs).open_new_nodes in
        amount s (shortfall e no_delta ns) ≤ length ns * capacity s e
  shortfall-le st pcs s v h r =
      let ns = (pack e st pcs).open_new_nodes in
      let none_open : All (IsOpened e) st.open_new_nodes = rw h tt in
      let done = pack-spent st pcs v none_open r in
      let zero_delta = amount-no_delta s in
      omega (
        arith,
        zero_delta,
        spent-le s ns,
        shortfall-spent s ns no_delta done.0 (omega (arith, zero_delta)),
      )
