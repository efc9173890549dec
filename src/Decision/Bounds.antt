-- ===== src/Decision/Bounds.antt =====
-- How many nodes a scale-up asks for.
use kubto.Prelude.{
  ℕ, ◌+◌, ◌-◌, ◌*◌, ◌^◌, ◌≤◌, ◌<◌, ◌≡◌, ◌⊎◌, inl, inr, Bool, true, length, arith, IsNat64, le64-le,
  sub64_of_le, lt64, lt64-lt, if◌then◌else◌,
}
use kubto.Platform.{Quantity, Float64}
use kubto.Monitor.Types.{ClusterState}
use kubto.Estimator.Packing.{ResourceDelta}
use kubto.Decision.{ThresholdPolicy, ceil_div, needed_nodes, evaluate}
use kubto.Decision.Division.{ceil_div_lem, ceil_div-lt}

-- The last two tests of the count.
abbrev clamp : ℕ → ℕ → ℕ
clamp most headroom =
    let least = if lt64 most 1 then 1 else most in if lt64 headroom least then headroom else least

clamp_bounds :
    (most headroom : ℕ)
    → most < 2 ^ 64
    → 0 < headroom
    → headroom < 2 ^ 63
    → (1 ≤ clamp most headroom) × (clamp most headroom ≤ headroom)
unfolding lt64
clamp_bounds most headroom m h k = ground arith

clamp_ge :
    (most headroom : ℕ)
    → most < 2 ^ 63
    → headroom < 2 ^ 63
    → (clamp most headroom ≡ headroom) ⊎ (most ≤ clamp most headroom)
unfolding lt64
clamp_ge most headroom m h = ground arith

if-lt : (b : Bool) (x y : ℕ) → x < 2 ^ 64 → y < 2 ^ 64 → (if b then x else y) < 2 ^ 64
if-lt b x y h k = ground arith

most_bounds :
    (a b : ℕ)
    → a < 2 ^ 63
    → b < 2 ^ 63
    → let most = if lt64 a b then b else a in (a ≤ most) × (b ≤ most) × (most < 2 ^ 63)
most_bounds a b h k = ground (arith, lt64-lt a b h k)

factor-lt : (x b y : ℕ) → 0 < b → x * b < y → x < y
factor-lt x b y h k = grind arith

le_mul : (a x y b : ℕ) → a ≤ x * b → x ≤ y → a ≤ y * b
le_mul a x y b h k = grind arith

module _ {F : Type 0} (p : ThresholdPolicy F) (delta : ResourceDelta) where
  needed_nodes-bounds :
      (headroom : ℕ)
      → 0 < headroom
      → headroom < 2 ^ 63
      → (1 ≤ needed_nodes p delta headroom) × (needed_nodes p delta headroom ≤ headroom)
  unfolding needed_nodes
  needed_nodes-bounds headroom h k =
      let for_cpu = ceil_div delta.cpu_millicores p.node_cpu_capacity_millicores in
      let for_mem = ceil_div delta.memory_bytes p.node_memory_capacity_bytes in
      clamp_bounds (if lt64 for_cpu for_mem then for_mem else for_cpu) headroom
        (if-lt (lt64 for_cpu for_mem) for_mem for_cpu (ceil_div-lt _ _) (ceil_div-lt _ _)) h k

  -- The policy's capacities are positive, and the amounts are in range.
  pub record IsMeasured : Type 0 where
    pub cpu_capacity : 0 < p.node_cpu_capacity_millicores
    pub mem_capacity : 0 < p.node_memory_capacity_bytes
    pub cpu : delta.cpu_millicores + p.node_cpu_capacity_millicores < 2 ^ 63
    pub mem : delta.memory_bytes + p.node_memory_capacity_bytes < 2 ^ 63

  -- `n` nodes of the policy's capacity cover the shortfall.
  abbrev pub Covers : ℕ → Type 0
  Covers n =
      (delta.cpu_millicores ≤ n * p.node_cpu_capacity_millicores)
      × (delta.memory_bytes ≤ n * p.node_memory_capacity_bytes)

  needed_nodes-Covers :
      (headroom : ℕ)
      → headroom < 2 ^ 63
      → IsMeasured
      → (needed_nodes p delta headroom ≡ headroom) ⊎ Covers (needed_nodes p delta headroom)
  unfolding needed_nodes
  needed_nodes-Covers headroom h m =
      let for_cpu = ceil_div delta.cpu_millicores p.node_cpu_capacity_millicores in
      let for_mem = ceil_div delta.memory_bytes p.node_memory_capacity_bytes in
      let c =
        ceil_div_lem delta.cpu_millicores p.node_cpu_capacity_millicores m.cpu_capacity m.cpu in
      let d = ceil_div_lem delta.memory_bytes p.node_memory_capacity_bytes m.mem_capacity m.mem in
      let small_cpu =
        factor-lt for_cpu p.node_cpu_capacity_millicores (2 ^ 63) m.cpu_capacity
          (omega (arith, c, m.cpu)) in
      let small_mem =
        factor-lt for_mem p.node_memory_capacity_bytes (2 ^ 63) m.mem_capacity
          (omega (arith, d, m.mem)) in
      let most = if lt64 for_cpu for_mem then for_mem else for_cpu in
      let top = most_bounds for_cpu for_mem small_cpu small_mem in
      elim (clamp_ge most headroom top.2 h) [
        | inl e ↦ inl e
        | inr le ↦ inr (
          le_mul _ for_cpu (clamp most headroom) _ c.0 (omega (arith, le, top.0)),
          le_mul _ for_mem (clamp most headroom) _ d.0 (omega (arith, le, top.1)),
        )
      ]

module _ {Q F : Type 0} ⦃q : Quantity Q⦄ (fl : Float64 F) (p : ThresholdPolicy F) (now : ℕ)
    (delta : ResourceDelta) (state : ClusterState Q) where
  module _ (limit : p.max_nodes < 2 ^ 63) (few : IsNat64 (length state.nodes)) where
    -- With a limit and a number of nodes below 2 ^ 63, a scale-up asks for at least one node and
    -- does not pass the limit.
    pub scale_up-bounds :
        (evaluate fl p now delta state).scale_up ≡ true
        → (1 ≤ (evaluate fl p now delta state).count)
          × (length state.nodes + (evaluate fl p now delta state).count ≤ p.max_nodes)
    unfolding evaluate
    scale_up-bounds up = ground (
      arith,
      le64-le p.max_nodes (length state.nodes),
      sub64_of_le p.max_nodes (length state.nodes),
      needed_nodes-bounds p delta (p.max_nodes - length state.nodes),
    )

    -- With a limit and a number of nodes below 2 ^ 63, positive capacities and amounts in range, a
    -- scale-up either goes up to the limit or asks for nodes enough for the whole shortfall.
    pub scale_up-Covers :
        IsMeasured p delta
        → (evaluate fl p now delta state).scale_up ≡ true
        → (length state.nodes + (evaluate fl p now delta state).count ≡ p.max_nodes)
          ⊎ Covers p delta (evaluate fl p now delta state).count
    unfolding evaluate
    scale_up-Covers m up = ground (
      arith,
      le64-le p.max_nodes (length state.nodes),
      sub64_of_le p.max_nodes (length state.nodes),
      needed_nodes-Covers p delta (p.max_nodes - length state.nodes) (omega arith) m,
    )
