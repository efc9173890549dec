-- ===== src/Estimator/Packing/Capacity.antt =====
-- The packing loop puts into a bin no more than it has room for.
use kubto.Prelude.{
  ℕ, zero, suc, ◌+◌, ◌≤◌, ◌≡◌, some, List, [], ◌∷◌, ◌++◌, length, get_elem?, modify, All,
  All-append, All-get_elem?, length-modify, get_elem?-lt, arith, ◌==◌, if◌then◌else◌, sub64_of_le,
}
use kubto.Estimator.Bins.{SimulatedNode, PodCandidate, take_capacity}
use kubto.Estimator.Bins.BestFit.{IsBin, IsRequest, Found, can_hold-Fits}
use kubto.Estimator.Packing.{
  ResourceEstimator, Outcome, on_existing, on_new, opened, too_large, incompatible, Packing, choose,
  commit, new_node, pack,
}
use kubto.Estimator.Packing.Choice.{Chosen, choose-Chosen}
use kubto.Estimator.Packing.Trace.{
  Resource, cpu, mem, free, request, capacity, IsTemplate, trace, on_existing_bin, on_new_bin, held,
  free_at, room_at, IsInRange,
}

module _ {Q F : Type 0} (pc : PodCandidate Q F) where
  -- The pod's requests are within the free amounts of the bin.
  abbrev pub Fits : SimulatedNode → Type 0
  Fits n = (pc.cpu_milli ≤ n.free_cpu) × (pc.mem_bytes ≤ n.free_mem)

  pub free-take_capacity :
      (r : Resource) (n : SimulatedNode)
      → IsBin n
      → Fits n
      → free r (take_capacity pc n) + request r pc ≡ free r n
  unfolding take_capacity
  free-take_capacity cpu n b f = omega (arith, b.cpu, sub64_of_le n.free_cpu pc.cpu_milli f.0)
  free-take_capacity mem n b f = omega (arith, b.mem, sub64_of_le n.free_mem pc.mem_bytes f.1)

  take_capacity-IsBin : (n : SimulatedNode) → IsBin n → Fits n → IsBin (take_capacity pc n)
  take_capacity-IsBin n b f = record {
    cpu = omega (arith, b.cpu, free-take_capacity cpu n b f);
    mem = omega (arith, b.mem, free-take_capacity mem n b f);
  }

  modify-IsBin :
      (ns : List SimulatedNode) (i : ℕ) (n : SimulatedNode)
      → All IsBin ns
      → get_elem? ns i ≡ some n
      → Fits n
      → All IsBin (modify ns i (take_capacity pc))
  modify-IsBin [] i n b g f = tt
  modify-IsBin (m ∷ ns) zero n b g f = ground (arith, take_capacity-IsBin m b.0)
  modify-IsBin (m ∷ ns) (suc i) n b g f = (b.0, modify-IsBin ns i n b.1 g f)

  free_at-modify :
      (r : Resource) (ns : List SimulatedNode) (i k : ℕ) (n : SimulatedNode)
      → All IsBin ns
      → get_elem? ns i ≡ some n
      → Fits n
      → free_at r (modify ns i (take_capacity pc)) k + (if k == i then request r pc else 0)
        ≡ free_at r ns k
  free_at-modify r [] i k n b g f = cc
  free_at-modify r (m ∷ ns) zero zero n b g f = ground (arith, free-take_capacity r m b.0)
  free_at-modify r (m ∷ ns) zero (suc k) n b g f = ground arith
  free_at-modify r (m ∷ ns) (suc i) zero n b g f = ground arith
  free_at-modify r (m ∷ ns) (suc i) (suc k) n b g f =
      ground (arith, free_at-modify r ns i k n b.1 g f)

module _ {Q F : Type 0} (e : ResourceEstimator) (t : IsTemplate e) where
  pub Found-Fits :
      (pc : PodCandidate Q F) (r : IsRequest pc) (ns : List SimulatedNode) (i : ℕ)
      → All IsBin ns
      → Found pc ns (some i)
      → (n : SimulatedNode) × (get_elem? ns i ≡ some n) × Fits pc n
  Found-Fits pc r ns i b (n, g, h, _) =
      let fits = can_hold-Fits pc r n (All-get_elem? IsBin ns i n b g) h in (n, g, (fits.1, fits.2))

  module _ (st : Packing) (v : IsInRange st) (pc : PodCandidate Q F) (r : IsRequest pc) where
    commit-existing :
        (o : Outcome) (s : Resource) (k : ℕ)
        → Chosen e st pc o
        → free_at s (commit e st pc o).candidates k
            + (if on_existing_bin k o then request s pc else 0)
          ≡ free_at s st.candidates k
    unfolding commit
    commit-existing (on_existing i) s k c =
        let (n, g, f) = Found-Fits pc r st.candidates i v.candidates c in
        free_at-modify pc s st.candidates i k n v.candidates g f
    commit-existing (on_new j) s k c = omega arith
    commit-existing (opened j) s k c = omega arith
    commit-existing too_large s k c = omega arith
    commit-existing incompatible s k c = omega arith

    pub new_node-free :
        (k : ℕ) (s : Resource)
        → pc.cpu_milli ≤ e.node_cpu_capacity_millicores
        → pc.mem_bytes ≤ e.node_memory_capacity_bytes
        → free s (new_node e k pc) + request s pc ≡ capacity s e
    unfolding new_node
    new_node-free k cpu a b =
        omega (arith, t.cpu, sub64_of_le e.node_cpu_capacity_millicores pc.cpu_milli a)
    new_node-free k mem a b =
        omega (arith, t.mem, sub64_of_le e.node_memory_capacity_bytes pc.mem_bytes b)

    room_at-open :
        (s : Resource) (ns : List SimulatedNode) (n : SimulatedNode) (k : ℕ)
        → free s n + request s pc ≡ capacity s e
        → room_at s e (ns ++ n ∷ []) k + (if k == length ns then request s pc else 0)
          ≡ room_at s e ns k
    room_at-open s [] n zero h = h
    room_at-open s [] n (suc k) h = ground arith
    room_at-open s (m ∷ ns) n zero h = ground arith
    room_at-open s (m ∷ ns) n (suc k) h = ground (arith, room_at-open s ns n k h)

    commit-new :
        (o : Outcome) (s : Resource) (k : ℕ)
        → Chosen e st pc o
        → room_at s e (commit e st pc o).open_new_nodes k
            + (if on_new_bin k o then request s pc else 0)
          ≡ room_at s e st.open_new_nodes k
    unfolding commit
    commit-new (on_existing i) s k c = omega arith
    commit-new (on_new j) s k c =
        let ns = st.open_new_nodes in
        let (n, g, f) = Found-Fits pc r ns j v.open_new_nodes c.1 in
        ground (
          arith,
          length-modify ns j (take_capacity pc),
          get_elem?-lt ns j g,
          free_at-modify pc s ns j k n v.open_new_nodes g f,
        )
    commit-new (opened j) s k c = rw (c.1) (
        room_at-open s st.open_new_nodes (new_node e (length st.open_new_nodes) pc) k
          (new_node-free (length st.open_new_nodes) s c.3 c.4))
    commit-new too_large s k c = omega arith
    commit-new incompatible s k c = omega arith

    pub commit-IsInRange : (o : Outcome) → Chosen e st pc o → IsInRange (commit e st pc o)
    unfolding commit
    commit-IsInRange (on_existing i) c =
        let (n, g, f) = Found-Fits pc r st.candidates i v.candidates c in
        record {
          candidates = modify-IsBin pc st.candidates i n v.candidates g f;
          open_new_nodes = v.open_new_nodes;
        }
    commit-IsInRange (on_new j) c =
        let (n, g, f) = Found-Fits pc r st.open_new_nodes j v.open_new_nodes c.1 in
        record {
          candidates = v.candidates;
          open_new_nodes = modify-IsBin pc st.open_new_nodes j n v.open_new_nodes g f;
        }
    commit-IsInRange (opened j) c = record {
      candidates = v.candidates;
      open_new_nodes = All-append IsBin st.open_new_nodes (new_node e j pc ∷ []) v.open_new_nodes (
        record {
          cpu = omega (arith, t.cpu, new_node-free j cpu c.3 c.4);
          mem = omega (arith, t.mem, new_node-free j mem c.3 c.4);
        },
        tt,
      );
    }
    commit-IsInRange too_large c = record {
      candidates = v.candidates;
      open_new_nodes = v.open_new_nodes;
    }
    commit-IsInRange incompatible c = record {
      candidates = v.candidates;
      open_new_nodes = v.open_new_nodes;
    }

  pub pack-existing :
      (st : Packing) (pcs : List (PodCandidate Q F)) (s : Resource) (k : ℕ)
      → IsInRange st
      → All IsRequest pcs
      → free_at s (pack e st pcs).candidates k + held s (on_existing_bin k) (trace e st pcs)
        ≡ free_at s st.candidates k
  unfolding pack
  pack-existing st [] s k v r = omega arith
  pack-existing st (pc ∷ pcs) s k v r =
      let c = choose-Chosen e t st pc v r.0 in
      let o = choose e st pc in
      omega (
        arith,
        commit-existing st v pc r.0 o s k c,
        pack-existing (commit e st pc o) pcs s k (commit-IsInRange st v pc r.0 o c) r.1,
      )

  pub pack-new :
      (st : Packing) (pcs : List (PodCandidate Q F)) (s : Resource) (k : ℕ)
      → IsInRange st
      → All IsRequest pcs
      → room_at s e (pack e st pcs).open_new_nodes k + held s (on_new_bin k) (trace e st pcs)
        ≡ room_at s e st.open_new_nodes k
  unfolding pack
  pack-new st [] s k v r = omega arith
  pack-new st (pc ∷ pcs) s k v r =
      let c = choose-Chosen e t st pc v r.0 in
      let o = choose e st pc in
      omega (
        arith,
        commit-new st v pc r.0 o s k c,
        pack-new (commit e st pc o) pcs s k (commit-IsInRange st v pc r.0 o c) r.1,
      )
