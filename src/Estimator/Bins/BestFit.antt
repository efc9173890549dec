-- ===== src/Estimator/Bins/BestFit.antt =====
-- The best-fit search finds a node that holds the pod and leaves the least behind.
use kubto.Prelude.{
  ℕ, ◌-◌, ◌/◌, ◌^◌, ◌≤◌, ◌<◌, ◌≡◌, refl, ◌⊎◌, inl, inr, true, false, Option, none, some, List, [],
  ◌∷◌, ◌++◌, length, get_elem?, All, All-append, get_elem?-append_left, get_elem?-append_length,
  append-cons, length-snoc, subst, arith, Bool-cases, IsNat64, le64-le, lt64-lt, sub64_of_le,
  add64_of_lt, div64_of_nat,
}
use mathlib.Core.List.{append-nil}
use native.Mathlib.Decide.{dec_lt}
use kubto.Estimator.Constraints.{can_pod_fit_constraints}
use kubto.Estimator.Bins.{
  SimulatedNode, PodCandidate, Best, minus_one, mebibyte, no_best, remaining_after, can_hold,
  improve, search_from, best_fit,
}

-- The free amounts of a bin are not negative, and its CPU is below 2 ^ 62 millicores.
pub record IsBin (n : SimulatedNode) : Type 0 where
  pub cpu : n.free_cpu < 2 ^ 62
  pub mem : n.free_mem < 2 ^ 63

-- The requests of a pod are not negative.
pub record IsRequest {Q F : Type 0} (pc : PodCandidate Q F) : Type 0 where
  pub cpu : IsNat64 pc.cpu_milli
  pub mem : IsNat64 pc.mem_bytes

module _ {Q F : Type 0} (pc : PodCandidate Q F) where
  -- No node that can hold the pod leaves less behind.
  abbrev pub Leaves : ℕ → SimulatedNode → Type 0
  Leaves best m = can_hold pc m ≡ true → best ≤ remaining_after pc m

  -- What the search has found: nothing, where no node can hold the pod, or such a node of least
  -- remaining capacity.
  abbrev pub Found : List SimulatedNode → Option ℕ → Type 0
  Found ns none = All (λ m. can_hold pc m ≡ false) ns
  Found ns (some i) =
      (n : SimulatedNode) × (get_elem? ns i ≡ some n)
      × (can_hold pc n ≡ true)
      × All (Leaves (remaining_after pc n)) ns

  abbrev Tracks : List SimulatedNode → Best → Type 0
  Tracks ns b =
      ((b.node ≡ none) × (b.remaining ≡ minus_one) × All (λ m. can_hold pc m ≡ false) ns)
      ⊎ ((i : ℕ) × (n : SimulatedNode) × (b.node ≡ some i)
          × (b.remaining ≡ remaining_after pc n)
          × (remaining_after pc n < 2 ^ 63)
          × (get_elem? ns i ≡ some n)
          × (can_hold pc n ≡ true)
          × All (Leaves (remaining_after pc n)) ns)

module _ {Q F : Type 0} (pc : PodCandidate Q F) (r : IsRequest pc) where
  -- What a node that holds the pod is known to satisfy.
  pub can_hold-Fits :
      (n : SimulatedNode)
      → IsBin n
      → can_hold pc n ≡ true
      → (can_pod_fit_constraints pc.info n.labels n.taints ≡ true)
        × (pc.cpu_milli ≤ n.free_cpu)
        × (pc.mem_bytes ≤ n.free_mem)
  unfolding can_hold
  can_hold-Fits n b h = ground (
    arith,
    b.cpu,
    b.mem,
    r.cpu,
    r.mem,
    le64-le pc.cpu_milli n.free_cpu,
    le64-le pc.mem_bytes n.free_mem,
  )

  remaining_after-lt :
      (n : SimulatedNode) → IsBin n → can_hold pc n ≡ true → remaining_after pc n < 2 ^ 63
  unfolding remaining_after
  remaining_after-lt n b h =
      let fits = can_hold-Fits n b h in
      let bc = b.cpu in
      let bm = b.mem in
      rw (sub64_of_le n.free_cpu pc.cpu_milli fits.1 (omega arith)) (
        rw (sub64_of_le n.free_mem pc.mem_bytes fits.2 bm) (
          rw (div64_of_nat (n.free_mem - pc.mem_bytes) mebibyte (omega arith) (omega arith)) (
            rw
              (add64_of_lt (n.free_cpu - pc.cpu_milli) ((n.free_mem - pc.mem_bytes) / mebibyte)
                (omega arith))
              (omega arith))))

  Leaves-none :
      (k : ℕ) (ns : List SimulatedNode) → All (λ m. can_hold pc m ≡ false) ns → All (Leaves pc k) ns
  Leaves-none k [] h = tt
  Leaves-none k (n ∷ ns) h = ((λ t. cc (t, h.0)), Leaves-none k ns h.1)

  Leaves-mono :
      (j k : ℕ) (ns : List SimulatedNode) → j ≤ k → All (Leaves pc k) ns → All (Leaves pc j) ns
  Leaves-mono j k [] h a = tt
  Leaves-mono j k (n ∷ ns) h a = ((λ t. omega (arith, a.0 t)), Leaves-mono j k ns h a.1)

  -- The new node is taken, or the old one is kept.
  Tracks-new :
      (ns : List SimulatedNode) (n : SimulatedNode) (k : ℕ)
      → can_hold pc n ≡ true
      → remaining_after pc n < 2 ^ 63
      → remaining_after pc n ≤ k
      → All (Leaves pc k) ns
      → Tracks pc
          (ns ++ n ∷ [])
          (record { node = some (length ns); remaining = remaining_after pc n })
  Tracks-new ns n k holds lt le a = inr (
    length ns,
    n,
    refl,
    refl,
    lt,
    get_elem?-append_length ns n [],
    holds,
    All-append _ ns (n ∷ []) (Leaves-mono _ k ns le a) ((λ _. omega arith), tt),
  )

  module _ (k : ℕ) (n : SimulatedNode) (b : Best) (holds : can_hold pc n ≡ true) where
    improve_first :
        b.remaining ≡ minus_one
        → improve pc k n b ≡ record { node = some k; remaining = remaining_after pc n }
    unfolding improve
    improve_first e = ground arith

    improve_better :
        remaining_after pc n < b.remaining
        → b.remaining < 2 ^ 63
        → improve pc k n b ≡ record { node = some k; remaining = remaining_after pc n }
    unfolding improve
    improve_better l h = ground (arith, lt64-lt (remaining_after pc n) b.remaining)

    improve_worse :
        b.remaining ≤ remaining_after pc n → remaining_after pc n < 2 ^ 63 → improve pc k n b ≡ b
    unfolding improve
    improve_worse l h = ground (arith, lt64-lt (remaining_after pc n) b.remaining)

  improve_out :
      (k : ℕ) (n : SimulatedNode) (b : Best) → can_hold pc n ≡ false → improve pc k n b ≡ b
  unfolding improve
  improve_out k n b e = rw e

  improve-Tracks :
      (ns : List SimulatedNode) (n : SimulatedNode) (b : Best)
      → IsBin n
      → Tracks pc ns b
      → Tracks pc (ns ++ n ∷ []) (improve pc (length ns) n b)
  improve-Tracks ns n b bin t = elim (Bool-cases (can_hold pc n)) [
    | inr out ↦ rw (improve_out (length ns) n b out) (elim t [
      | inl (a, c, d) ↦ inl (a, c, All-append _ ns (n ∷ []) d (out, tt))
      | inr (i, m, a, c, l, g, hm, d) ↦ inr (kept ns n b i m a c l g hm d (λ h. cc (h, out)))
    ])
    | inl holds ↦ elim t [
      | inl (a, c, d) ↦ rw (improve_first (length ns) n b holds c) (
          Tracks-new ns n (remaining_after pc n) holds (remaining_after-lt n bin holds)
            (omega arith) (Leaves-none _ ns d))
      | inr (i, m, a, c, l, g, hm, d) ↦
          elim (dec_lt (remaining_after pc n) (remaining_after pc m)) [
            | yes less ↦ rw (improve_better (length ns) n b holds (omega arith) (omega arith)) (
                Tracks-new ns n (remaining_after pc m) holds (remaining_after-lt n bin holds)
                  (omega arith) d)
            | no more ↦
                rw
                  (improve_worse (length ns) n b holds (omega arith)
                    (remaining_after-lt n bin holds))
                  (inr (kept ns n b i m a c l g hm d (λ _. omega arith)))
          ]
    ]
  ]
    where
      kept :
          (ns : List SimulatedNode) (n : SimulatedNode) (b : Best) (i : ℕ) (m : SimulatedNode)
          → b.node ≡ some i
          → b.remaining ≡ remaining_after pc m
          → remaining_after pc m < 2 ^ 63
          → get_elem? ns i ≡ some m
          → can_hold pc m ≡ true
          → All (Leaves pc (remaining_after pc m)) ns
          → Leaves pc (remaining_after pc m) n
          → (j : ℕ) × (k : SimulatedNode) × (b.node ≡ some j)
            × (b.remaining ≡ remaining_after pc k)
            × (remaining_after pc k < 2 ^ 63)
            × (get_elem? (ns ++ n ∷ []) j ≡ some k)
            × (can_hold pc k ≡ true)
            × All (Leaves pc (remaining_after pc k)) (ns ++ n ∷ [])
      kept ns n b i m a c l g hm d last = (
        i,
        m,
        a,
        c,
        l,
        get_elem?-append_left ns (n ∷ []) i g,
        hm,
        All-append _ ns (n ∷ []) d (last, tt),
      )

  search_from-Tracks :
      (done rest : List SimulatedNode) (b : Best)
      → All IsBin rest
      → Tracks pc done b
      → Tracks pc (done ++ rest) (search_from pc (length done) b rest)
  unfolding search_from
  search_from-Tracks done [] b bins t = rw append-nil t
  search_from-Tracks done (n ∷ ns) b bins t =
      let next = improve pc (length done) n b in
      let all =
        search_from-Tracks (done ++ n ∷ []) ns next bins.1 (improve-Tracks done n b bins.0 t) in
      rw (← append-cons done n ns) (
        subst (λ k. Tracks pc ((done ++ n ∷ []) ++ ns) (search_from pc k next ns))
          (length-snoc done n) all)

  -- For a request that is not negative, among bins whose free amounts are in range, the search
  -- returns nothing exactly when no node can hold the pod, and otherwise a node that can hold it
  -- and that leaves the least remaining capacity of all that can.
  pub best_fit-Found : (ns : List SimulatedNode) → All IsBin ns → Found pc ns (best_fit pc ns)
  unfolding best_fit
  best_fit-Found ns bins = elim (search_from-Tracks [] ns no_best bins (inl (refl, refl, tt))) [
    | inl (a, c, d) ↦ rw a d
    | inr (i, n, a, c, l, g, hn, d) ↦ rw a (n, g, hn, d)
  ]
