-- ===== src/Estimator/Estimate/Guarantees.antt =====
-- What `EstimateDetailed` guarantees (autoscaler/pkg/estimator/resource_estimator.go).
use mathlib.Core.List.{Permᴰ}
use mathlib.Core.List.Permᴰ
use kubto.Prelude.{
  ◌*◌, ◌≤◌, length, ℕ, ◌+◌, ◌-◌, ◌%◌, ◌^◌, ◌<◌, ◌≡◌, refl, Bool, not, ◌||◌, Option, none, some,
  List, [], ◌∷◌, All, All-append, All-perm, ap, ◌∙◌, arith, Bool-cases, inl, inr, IsNat64, sub64,
  lt64,
}
use kubto.Platform.{Quantity, Float64}
use kubto.Monitor.Types.{PodInfo, NodeInfo, ClusterState}
use kubto.Estimator.Bins.{PodCandidate}
use kubto.Estimator.Bins.BestFit.{IsBin, IsRequest}
use kubto.Estimator.Packing.{ResourceEstimator, Packing}
use kubto.Estimator.Packing.Trace.{
  Resource, capacity, IsTemplate, Entry, trace, on_existing_bin, on_new_bin, on_any_new, held,
  free_at, room_at, IsInRange,
}
use kubto.Estimator.Packing.Capacity.{pack-existing, pack-new}
use kubto.Estimator.Estimate.{
  bin_of, bins_of, candidates_of, start, candidate_of, is_unasked, note_pod, keep_pod, categorize,
  comes_first, Sorter, packed, report_of, clamped,
}
use kubto.Estimator.Estimate.Deficit.{amount, shortfall-held, shortfall-le}

-- `sort.Slice` permutes its argument.
pub record IsSorter {Q F : Type 0} (sort : Sorter Q F) : Type 0 where
  pub permutes :
      (less : PodCandidate Q F → PodCandidate Q F → Bool) (l : List (PodCandidate Q F))
      → Permᴰ (sort less l) l

-- The free amount of a bin is the allocatable amount less the usage, and 0 where more is used.
clamped_sub : (a b : ℕ) → IsNat64 a → IsNat64 b → clamped (sub64 a b) ≡ a - b
unfolding sub64 lt64
clamped_sub a b ha hb = ground arith

module _ {Q : Type 0} ⦃q : Quantity Q⦄ where
  -- The node's allocatable amounts and its usage are not negative, and its CPU is below 2 ^ 62.
  pub record IsSized (n : NodeInfo Q) : Type 0 where
    pub cpu : q.milli_value n.allocatable_cpu < 2 ^ 62
    pub mem : IsNat64 (q.value n.allocatable_memory)
    pub used_cpu : IsNat64 (q.milli_value n.used_cpu)
    pub used_mem : IsNat64 (q.value n.used_memory)

  -- The pod's requests are not negative.
  pub record IsAsking (p : PodInfo Q) : Type 0 where
    pub cpu : IsNat64 (q.milli_value p.cpu_request)
    pub mem : IsNat64 (q.value p.memory_request)

  bin_of-IsBin : (n : NodeInfo Q) → IsSized n → IsBin (bin_of n)
  unfolding bin_of
  bin_of-IsBin n h = record {
    cpu =
        rw
          (clamped_sub (q.milli_value n.allocatable_cpu) (q.milli_value n.used_cpu)
            (omega (arith, h.cpu)) h.used_cpu)
          (omega (arith, h.cpu));
    mem =
        rw (clamped_sub (q.value n.allocatable_memory) (q.value n.used_memory) h.mem h.used_mem)
          (omega (arith, h.mem));
  }

  bins_of-IsBin : (ns : List (NodeInfo Q)) → All IsSized ns → All IsBin (bins_of ns)
  unfolding bins_of
  bins_of-IsBin [] h = tt
  bins_of-IsBin (n ∷ ns) h = elim (Bool-cases (not n.ready || n.unschedulable)) [
    | inl e ↦ rw e (bins_of-IsBin ns h.1)
    | inr e ↦ rw e (bin_of-IsBin n h.0, bins_of-IsBin ns h.1)
  ]

  abbrev pub nodes_of : Option (ClusterState Q) → List (NodeInfo Q)
  nodes_of none = []
  nodes_of (some state) = state.nodes

  candidates_of-IsBin :
      (state : Option (ClusterState Q))
      → All IsSized (nodes_of state)
      → All IsBin (candidates_of state)
  unfolding candidates_of
  candidates_of-IsBin none h = tt
  candidates_of-IsBin (some state) h = bins_of-IsBin state.nodes h

  module _ {F : Type 0} (fl : Float64 F) (e : ResourceEstimator) where
    candidate_of-IsRequest : (p : PodInfo Q) → IsAsking p → IsRequest (candidate_of fl e p)
    unfolding candidate_of
    candidate_of-IsRequest p h = record { cpu = h.cpu; mem = h.mem }

    keep_pod-IsRequest :
        (feasible : List (PodCandidate Q F)) (p : PodInfo Q)
        → All IsRequest feasible
        → IsAsking p
        → All IsRequest (keep_pod fl e feasible p)
    unfolding keep_pod
    keep_pod-IsRequest feasible p f h =
        elim (Bool-cases (p.has_unsupported_constraints || is_unasked p)) [
          | inl a ↦ rw a f
          | inr a ↦ rw a (
              All-append IsRequest feasible (candidate_of fl e p ∷ []) f
                (candidate_of-IsRequest p h, tt))
        ]

    categorize-IsRequest :
        (st : Packing) (feasible : List (PodCandidate Q F)) (ps : List (PodInfo Q))
        → All IsRequest feasible
        → All IsAsking ps
        → All IsRequest (categorize fl e st feasible ps).1
    unfolding categorize
    categorize-IsRequest st feasible [] f h = f
    categorize-IsRequest st feasible (p ∷ ps) f h =
        categorize-IsRequest (note_pod st p) (keep_pod fl e feasible p) ps
          (keep_pod-IsRequest feasible p f h.0) h.1

    note_pod-keeps_bins :
        (st : Packing) (p : PodInfo Q)
        → ((note_pod st p).candidates ≡ st.candidates)
          × ((note_pod st p).open_new_nodes ≡ st.open_new_nodes)
    unfolding note_pod
    note_pod-keeps_bins st p = ground arith

    pub categorize-keeps_bins :
        (st : Packing) (feasible : List (PodCandidate Q F)) (ps : List (PodInfo Q))
        → ((categorize fl e st feasible ps).0.candidates ≡ st.candidates)
          × ((categorize fl e st feasible ps).0.open_new_nodes ≡ st.open_new_nodes)
    unfolding categorize
    categorize-keeps_bins st feasible [] = (refl, refl)
    categorize-keeps_bins st feasible (p ∷ ps) =
        let one = note_pod-keeps_bins st p in
        let rest = categorize-keeps_bins (note_pod st p) (keep_pod fl e feasible p) ps in
        (rest.0 ∙ one.0, rest.1 ∙ one.1)

room_at-nil : (e : ResourceEstimator) (s : Resource) (k : ℕ) → room_at s e [] k ≡ capacity s e
room_at-nil e s k = ground arith

module _ {Q F : Type 0} ⦃q : Quantity Q⦄ (fl : Float64 F) (sort : Sorter Q F)
    (e : ResourceEstimator) (state : Option (ClusterState Q)) (ps : List (PodInfo Q)) where
  -- The packing's outcome, and the pods that it packed with the branch that each took.
  abbrev pub final : Packing
  final = (packed fl sort e state ps).0

  abbrev pub entries : List (Entry Q F)
  entries =
      trace e (categorize fl e (start state) [] ps).0
        (sort (comes_first fl) (categorize fl e (start state) [] ps).1)

  module _ (sorts : IsSorter sort) (t : IsTemplate e) (sized : All IsSized (nodes_of state))
      (asking : All IsAsking ps) where
    pub order-IsRequest :
        All IsRequest (sort (comes_first fl) (categorize fl e (start state) [] ps).1)
    order-IsRequest =
        All-perm IsRequest
          (Permᴰ.symm (sorts.permutes (comes_first fl) (categorize fl e (start state) [] ps).1))
          (categorize-IsRequest fl e (start state) [] ps tt asking)

    pub started-IsInRange : IsInRange (categorize fl e (start state) [] ps).0
    unfolding start
    started-IsInRange =
        let same = categorize-keeps_bins fl e (start state) [] ps in
        record {
          candidates = rw same.0 (candidates_of-IsBin state sized);
          open_new_nodes = rw same.1 tt;
        }

    -- Where the sort permutes and the template, the nodes' amounts and the requests are in range,
    -- on every existing node: what is free at the end and what was asked by the pods that were put
    -- there make up what was free before.
    pub existing_within_free :
        (s : Resource) (k : ℕ)
        → free_at s final.candidates k + held s (on_existing_bin k) entries
          ≡ free_at s (candidates_of state) k
    unfolding packed start
    existing_within_free s k =
        let same = categorize-keeps_bins fl e (start state) [] ps in
        pack-existing e t (categorize fl e (start state) [] ps).0
          (sort (comes_first fl) (categorize fl e (start state) [] ps).1) s k started-IsInRange
          order-IsRequest
        ∙ ap (λ ns. free_at s ns k) same.0

    -- Where the sort permutes and the template, the nodes' amounts and the requests are in range,
    -- on every new node: what is free at the end and what was asked by the pods that were put there
    -- make up the template's capacity.
    pub new_within_template :
        (s : Resource) (k : ℕ)
        → room_at s e final.open_new_nodes k + held s (on_new_bin k) entries ≡ capacity s e
    unfolding packed start
    new_within_template s k =
        let same = categorize-keeps_bins fl e (start state) [] ps in
        pack-new e t (categorize fl e (start state) [] ps).0
          (sort (comes_first fl) (categorize fl e (start state) [] ps).1) s k started-IsInRange
          order-IsRequest
        ∙ (ap (λ ns. room_at s e ns k) same.1 ∙ room_at-nil e s k)

    -- Where the sort permutes and the template, the nodes' amounts and the requests are in range,
    -- the reported shortfall is what was asked by the pods that were put on new nodes, as a 64-bit
    -- number.
    pub delta-held :
        (s : Resource) → amount s (report_of e final).delta ≡ held s on_any_new entries % 2 ^ 64
    unfolding packed start
    delta-held s =
        let same = categorize-keeps_bins fl e (start state) [] ps in
        shortfall-held e t (categorize fl e (start state) [] ps).0
          (sort (comes_first fl) (categorize fl e (start state) [] ps).1) s started-IsInRange same.1
          order-IsRequest

    -- The shortfall is no more than the new nodes have in all.
    pub delta-le :
        (s : Resource)
        → amount s (report_of e final).delta ≤ length final.open_new_nodes * capacity s e
    unfolding packed start
    delta-le s =
        let same = categorize-keeps_bins fl e (start state) [] ps in
        shortfall-le e t (categorize fl e (start state) [] ps).0
          (sort (comes_first fl) (categorize fl e (start state) [] ps).1) s started-IsInRange same.1
          order-IsRequest
