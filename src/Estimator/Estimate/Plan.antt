-- ===== src/Estimator/Estimate/Plan.antt =====
-- The plan behind an estimate (autoscaler/pkg/estimator/resource_estimator.go): which pods may
-- share which node, and how few new nodes it gets by with.
use native.Mathlib.Nat.{mul-le-mul_right}
use native.Mathlib.Decide.{dec_lt}
use kubto.Prelude.{
  ℕ, zero, suc, ◌+◌, ◌*◌, ◌≤◌, ◌<◌, ◌≡◌, refl, ◌⊎◌, inl, inr, Option, some, List, [], ◌∷◌, length,
  get_elem?, get_elem?-lt, All, arith, map, subst,
}
use kubto.Platform.{Quantity, Float64}
use kubto.Monitor.Types.{PodInfo, ClusterState}
use kubto.Estimator.Bins.{SimulatedNode}
use kubto.Estimator.Packing.{ResourceEstimator}
use kubto.Estimator.Packing.Trace.{
  Resource, cpu, mem, free, capacity, IsTemplate, on_new_bin, on_any_new, held, room_at,
}
use kubto.Estimator.Packing.Merging.{EachCrowded, IsSpread, pack-IsSpread, EachCrowded-get_elem?}
use kubto.Estimator.Packing.Allowed.{host, Allowed, trace-Allowed}
use kubto.Estimator.Estimate.{
  start, candidates_of, categorize, comes_first, Sorter, packed, report_of,
}
use kubto.Estimator.Estimate.Deficit.{IsOpened, spent, pack-spent}
use kubto.Estimator.Estimate.Guarantees.{
  IsSorter, IsSized, IsAsking, nodes_of, categorize-keeps_bins, final, entries, order-IsRequest,
  started-IsInRange, new_within_template,
}

room_at-eq-free :
    (s : Resource) (e : ResourceEstimator) (ns : List SimulatedNode) (k : ℕ) (n : SimulatedNode)
    → get_elem? ns k ≡ some n
    → room_at s e ns k ≡ free s n
room_at-eq-free s e ns k n g = ground (arith, get_elem?-lt ns k g)

get_elem?-of_lt :
    (ns : List SimulatedNode) (k : ℕ)
    → k < length ns
    → (n : SimulatedNode) × (get_elem? ns k ≡ some n)
get_elem?-of_lt [] k h = absurd (omega arith)
get_elem?-of_lt (n ∷ ns) zero h = (n, refl)
get_elem?-of_lt (n ∷ ns) (suc k) h = get_elem?-of_lt ns k (omega arith)

-- Of the new nodes, taken in pairs, `a` pairs overfill one template in CPU, and the others in
-- memory.
pairs :
    (e : ResourceEstimator) (ns : List SimulatedNode)
    → EachCrowded e ns
    → (a : ℕ) × (b : ℕ) × (length ns ≤ 2 * (a + b) + 1)
      × (a * capacity cpu e + a ≤ spent cpu e ns)
      × (b * capacity mem e + b ≤ spent mem e ns)
pairs e [] h = (0, 0, omega arith, omega arith, omega arith)
pairs e (n ∷ []) h = (0, 0, omega arith, omega arith, omega arith)
pairs e (m ∷ n ∷ ns) (c, h) =
    let (a, b, few, more_cpu, more_mem) = pairs e ns h.1 in
    elim (c.0) [
      | inl over ↦ (suc a, b, omega arith, grind arith, omega arith)
      | inr over ↦ (a, suc b, omega arith, omega arith, grind arith)
    ]

-- `a` templates, each overfilled, hold more than `m` templates unless `a` is smaller.
overfilled-lt : (a m c : ℕ) → 1 ≤ m → a * c + a ≤ m * c → a + 1 ≤ m
overfilled-lt a m c one h = elim (dec_lt a m) [
  | yes fewer ↦ omega arith
  | no more ↦ absurd (omega (arith, mul-le-mul_right {m = m} {n = a} c (omega arith)))
]

module _ {Q F : Type 0} ⦃q : Quantity Q⦄ (fl : Float64 F) (sort : Sorter Q F)
    (e : ResourceEstimator) (state : Option (ClusterState Q)) (ps : List (PodInfo Q))
    (sorts : IsSorter sort) (t : IsTemplate e) (sized : All IsSized (nodes_of state))
    (asking : All IsAsking ps) where
  final-IsSpread : IsSpread e (final fl sort e state ps).open_new_nodes
  unfolding packed start
  final-IsSpread =
      let same = categorize-keeps_bins fl e (start state) [] ps in
      pack-IsSpread e t (categorize fl e (start state) [] ps).0
        (sort (comes_first fl) (categorize fl e (start state) [] ps).1)
        (started-IsInRange fl sort e state ps sorts t sized asking)
        (order-IsRequest fl sort e state ps sorts t sized asking)
        (rw (same.1) (record { like = tt; crowded = tt }))

  final-spent :
      (s : Resource)
      → spent s e (final fl sort e state ps).open_new_nodes
        ≡ held s on_any_new (entries fl sort e state ps)
  unfolding packed start
  final-spent s =
      let same = categorize-keeps_bins fl e (start state) [] ps in
      let (st, pcs) = categorize fl e (start state) [] ps in
      let none_spent : spent s e st.open_new_nodes ≡ 0 = rw same.1 in
      let none_open : All (IsOpened e) st.open_new_nodes = rw same.1 tt in
      omega (
        arith,
        none_spent,
        (pack-spent e t st (sort (comes_first fl) pcs)
              (started-IsInRange fl sort e state ps sorts t sized asking) none_open
              (order-IsRequest fl sort e state ps sorts t sized asking)).1
            s,
      )

  -- No two of the new nodes could be one.
  pub cannot_merge :
      (j k : ℕ)
      → j < k
      → k < length (final fl sort e state ps).open_new_nodes
      → let load = λ (s : Resource) (i : ℕ). held s (on_new_bin i) (entries fl sort e state ps) in
        (capacity cpu e < load cpu j + load cpu k) ⊎ (capacity mem e < load mem j + load mem k)
  cannot_merge j k lt within =
      let ns = (final fl sort e state ps).open_new_nodes in
      let (m, g) = get_elem?-of_lt ns j (omega arith) in
      let (n, g') = get_elem?-of_lt ns k within in
      let rest =
        λ (s : Resource) (i : ℕ). new_within_template fl sort e state ps sorts t sized asking s i in
      let crowded = EachCrowded-get_elem? e ns j k m n ((final-IsSpread).crowded) lt g g' in
      elim crowded [
        | inl c ↦ inl (
            omega (
              arith,
              c,
              rest cpu j,
              rest cpu k,
              room_at-eq-free cpu e ns j m g,
              room_at-eq-free cpu e ns k n g',
            ))
        | inr c ↦ inr (
            omega (
              arith,
              c,
              rest mem j,
              rest mem k,
              room_at-eq-free mem e ns j m g,
              room_at-eq-free mem e ns k n g',
            ))
      ]

  -- Where the pods that went to new nodes fit in all on `m` templates, there are fewer than `4 *
  -- m`.
  pub new_nodes-le :
      (m : ℕ)
      → 1 ≤ m
      → held cpu on_any_new (entries fl sort e state ps) ≤ m * capacity cpu e
      → held mem on_any_new (entries fl sort e state ps) ≤ m * capacity mem e
      → (report_of e (final fl sort e state ps)).nodes_needed + 3 ≤ 4 * m
  new_nodes-le m one total_cpu total_mem =
      let ns = (final fl sort e state ps).open_new_nodes in
      let (a, b, few, more_cpu, more_mem) = pairs e ns ((final-IsSpread).crowded) in
      omega (
        arith,
        few,
        overfilled-lt a m (capacity cpu e) one
            (omega (arith, more_cpu, total_cpu, final-spent cpu)),
        overfilled-lt b m (capacity mem e) one
            (omega (arith, more_mem, total_mem, final-spent mem)),
      )

  -- Each pod that was packed stands on a node that meets its constraints, existing or new, or on
  -- none because it exceeds the template or the template does not meet them. A node meets them if
  -- its labels, where a missing one reads as the empty value, have the selector's values and each
  -- blocking taint is covered by a toleration, in key, effect and operator, where an empty operator
  -- covers any value.
  pub packed-Allowed : All (Allowed e (map host (candidates_of state))) (entries fl sort e state ps)
  unfolding packed start
  packed-Allowed =
      let same = categorize-keeps_bins fl e (start state) [] ps in
      let (st, pcs) = categorize fl e (start state) [] ps in
      subst (λ ns. All (Allowed e (map host ns)) (entries fl sort e state ps)) same.0
        (trace-Allowed e t st (sort (comes_first fl) pcs)
          (started-IsInRange fl sort e state ps sorts t sized asking)
          (order-IsRequest fl sort e state ps sorts t sized asking)
          (rw same.1 (record { like = tt; crowded = tt })))
