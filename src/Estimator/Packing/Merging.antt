-- ===== src/Estimator/Packing/Merging.antt =====
-- The packing loop opens a new node only where no new node has room, so no two of them can be one.
use kubto.Prelude.{
  ℕ, suc, zero, ◌+◌, ◌≤◌, ◌<◌, ◌≡◌, refl, ◌⊎◌, inl, inr, true, false, some, none, List, [], ◌∷◌,
  ◌++◌, get_elem?, modify, All, All-append, All-modify, All-get_elem?, All-map, subst, sym, arith,
  le64-le,
}
use mathlib.Core.Option.{some-injective}
use kubto.Estimator.Constraints.{can_pod_fit_constraints}
use kubto.Estimator.Bins.{SimulatedNode, PodCandidate, can_hold, take_capacity}
use kubto.Estimator.Bins.BestFit.{IsBin, IsRequest, Found}
use kubto.Estimator.Packing.{
  ResourceEstimator, Outcome, on_existing, on_new, opened, too_large, incompatible, Packing, choose,
  commit, new_node, pack,
}
use kubto.Estimator.Packing.Choice.{Chosen, choose-Chosen}
use kubto.Estimator.Packing.Trace.{Resource, cpu, mem, IsTemplate, IsInRange}
use kubto.Estimator.Packing.Capacity.{
  Fits, free-take_capacity, Found-Fits, new_node-free, commit-IsInRange,
}

-- The loads of two new nodes exceed the template in a resource.
abbrev pub Crowded : ResourceEstimator → SimulatedNode → SimulatedNode → Type 0
Crowded e m n =
    (m.free_cpu + n.free_cpu < e.node_cpu_capacity_millicores)
    ⊎ (m.free_mem + n.free_mem < e.node_memory_capacity_bytes)

abbrev pub EachCrowded : ResourceEstimator → List SimulatedNode → Type 0
EachCrowded e [] = Unit
EachCrowded e (n ∷ ns) = All (Crowded e n) ns × EachCrowded e ns

-- A new node has the labels and the taints of the template.
abbrev pub IsLikeTemplate : ResourceEstimator → SimulatedNode → Type 0
IsLikeTemplate e n = (n.labels ≡ e.node_labels) × (n.taints ≡ e.node_taints)

module _ (e : ResourceEstimator) where
  less_free-Crowded :
      (m m' n : SimulatedNode)
      → m'.free_cpu ≤ m.free_cpu
      → m'.free_mem ≤ m.free_mem
      → (Crowded e m n → Crowded e m' n) × (Crowded e n m → Crowded e n m')
  less_free-Crowded m m' n a b = (
    λ h. elim h [ inl c ↦ inl (omega arith) | inr d ↦ inr (omega arith) ],
    λ h. elim h [ inl c ↦ inl (omega arith) | inr d ↦ inr (omega arith) ],
  )

  snoc-EachCrowded :
      (ns : List SimulatedNode) (n : SimulatedNode)
      → EachCrowded e ns
      → All (λ m. Crowded e m n) ns
      → EachCrowded e (ns ++ n ∷ [])
  snoc-EachCrowded [] n h a = (tt, tt)
  snoc-EachCrowded (m ∷ ns) n h a =
      (All-append (Crowded e m) ns (n ∷ []) h.0 (a.0, tt), snoc-EachCrowded ns n h.1 a.1)

  module _ {Q F : Type 0} (pc : PodCandidate Q F) where
    take-le :
        (n : SimulatedNode)
        → IsBin n
        → Fits pc n
        → ((take_capacity pc n).free_cpu ≤ n.free_cpu)
          × ((take_capacity pc n).free_mem ≤ n.free_mem)
    take-le n b f = (
      omega (arith, free-take_capacity pc cpu n b f),
      omega (arith, free-take_capacity pc mem n b f),
    )

    modify-EachCrowded :
        (ns : List SimulatedNode) (i : ℕ) (n : SimulatedNode)
        → get_elem? ns i ≡ some n
        → IsBin n
        → Fits pc n
        → EachCrowded e ns
        → EachCrowded e (modify ns i (take_capacity pc))
    modify-EachCrowded [] i n g b f h = tt
    modify-EachCrowded (m ∷ ns) zero n g b f h =
        let same = some-injective _ _ g in
        let le = take-le m (subst IsBin (sym same) b) (subst (Fits pc) (sym same) f) in
        (All-map ns (λ k c. (less_free-Crowded m (take_capacity pc m) k le.0 le.1).0 c) h.0, h.1)
    modify-EachCrowded (m ∷ ns) (suc i) n g b f h =
        let le = take-le n b f in
        (
          All-modify (Crowded e m) (take_capacity pc) ns i n g
              (λ c. (less_free-Crowded n (take_capacity pc n) m le.0 le.1).1 c) h.0,
          modify-EachCrowded ns i n g b f h.1,
        )

    -- A new node that cannot hold the pod, whose constraints the template meets, lacks room for it.
    refused-Crowded :
        IsRequest pc
        → IsTemplate e
        → (k : ℕ) (st : Packing) (v : IsInRange st) (m : SimulatedNode)
        → can_pod_fit_constraints pc.info e.node_labels e.node_taints ≡ true
        → pc.cpu_milli ≤ e.node_cpu_capacity_millicores
        → pc.mem_bytes ≤ e.node_memory_capacity_bytes
        → IsBin m
        → IsLikeTemplate e m
        → can_hold pc m ≡ false
        → Crowded e m (new_node e k pc)
    unfolding can_hold
    refused-Crowded r t k st v m c fits_cpu fits_mem b like h =
        let c' : can_pod_fit_constraints pc.info m.labels m.taints ≡ true = rw (like.0, like.1) c in
        let free_new = λ (s : Resource). new_node-free e t st v pc r k s fits_cpu fits_mem in
        let new_cpu = free_new cpu in
        let new_mem = free_new mem in
        ground (
          arith,
          c',
          new_cpu,
          new_mem,
          b.cpu,
          b.mem,
          r.cpu,
          r.mem,
          le64-le pc.cpu_milli m.free_cpu,
          le64-le pc.mem_bytes m.free_mem,
        )

-- What the loop keeps of the list of new nodes.
pub record IsSpread (e : ResourceEstimator) (ns : List SimulatedNode) : Type 0 where
  pub like : All (IsLikeTemplate e) ns
  pub crowded : EachCrowded e ns

module _ {Q F : Type 0} (e : ResourceEstimator) (t : IsTemplate e) where
  nodes_refused-Crowded :
      (st : Packing) (v : IsInRange st) (pc : PodCandidate Q F) (k : ℕ)
      → IsRequest pc
      → can_pod_fit_constraints pc.info e.node_labels e.node_taints ≡ true
      → pc.cpu_milli ≤ e.node_cpu_capacity_millicores
      → pc.mem_bytes ≤ e.node_memory_capacity_bytes
      → (ns : List SimulatedNode) → All IsBin ns
      → All (IsLikeTemplate e) ns
      → Found pc ns none
      → All (λ m. Crowded e m (new_node e k pc)) ns
  nodes_refused-Crowded st v pc k r c a b [] bins like none_can = tt
  nodes_refused-Crowded st v pc k r c a b (m ∷ ns) bins like none_can = (
    refused-Crowded e pc r t k st v m c a b bins.0 like.0 none_can.0,
    nodes_refused-Crowded st v pc k r c a b ns bins.1 like.1 none_can.1,
  )

  pub commit-IsSpread :
      (st : Packing) (v : IsInRange st) (pc : PodCandidate Q F) (r : IsRequest pc) (o : Outcome)
      → Chosen e st pc o
      → IsSpread e st.open_new_nodes
      → IsSpread e (commit e st pc o).open_new_nodes
  unfolding commit new_node take_capacity
  commit-IsSpread st v pc r (on_existing i) c s = s
  commit-IsSpread st v pc r (on_new j) c s =
      let ns = st.open_new_nodes in
      let (n, g, f) = Found-Fits e t pc r ns j v.open_new_nodes c.1 in
      record {
        like = All-modify (IsLikeTemplate e) (take_capacity pc) ns j n g (λ h. h) s.like;
        crowded =
            modify-EachCrowded e pc ns j n g (All-get_elem? IsBin ns j n v.open_new_nodes g) f
              s.crowded;
      }
  commit-IsSpread st v pc r (opened k) c s =
      let ns = st.open_new_nodes in
      record {
        like = All-append (IsLikeTemplate e) ns (new_node e k pc ∷ []) s.like ((refl, refl), tt);
        crowded =
            snoc-EachCrowded e ns (new_node e k pc) s.crowded
              (nodes_refused-Crowded st v pc k r c.2 c.3 c.4 ns v.open_new_nodes s.like c.0.1);
      }
  commit-IsSpread st v pc r too_large c s = s
  commit-IsSpread st v pc r incompatible c s = s

  pub pack-IsSpread :
      (st : Packing) (pcs : List (PodCandidate Q F))
      → IsInRange st
      → All IsRequest pcs
      → IsSpread e st.open_new_nodes
      → IsSpread e (pack e st pcs).open_new_nodes
  unfolding pack
  pack-IsSpread st [] v r s = s
  pack-IsSpread st (pc ∷ pcs) v r s =
      let o = choose e st pc in
      let c = choose-Chosen e t st pc v r.0 in
      pack-IsSpread (commit e st pc o) pcs (commit-IsInRange e t st v pc r.0 o c) r.1
        (commit-IsSpread st v pc r.0 o c s)

-- In a spread list, two nodes at different places are crowded together.
pub EachCrowded-get_elem? :
    (e : ResourceEstimator) (ns : List SimulatedNode) (j k : ℕ) (m n : SimulatedNode)
    → EachCrowded e ns
    → j < k
    → get_elem? ns j ≡ some m
    → get_elem? ns k ≡ some n
    → Crowded e m n
EachCrowded-get_elem? e [] j k m n h lt g g' = cc
EachCrowded-get_elem? e (x ∷ ns) zero zero m n h lt g g' = absurd (omega arith)
EachCrowded-get_elem? e (x ∷ ns) zero (suc k) m n h lt g g' =
    subst (λ y. Crowded e y n) (some-injective _ _ g) (All-get_elem? (Crowded e x) ns k n h.0 g')
EachCrowded-get_elem? e (x ∷ ns) (suc j) zero m n h lt g g' = absurd (omega arith)
EachCrowded-get_elem? e (x ∷ ns) (suc j) (suc k) m n h lt g g' =
    EachCrowded-get_elem? e ns j k m n h.1 (omega arith) g g'
