-- ===== src/Estimator/Estimate/Coverage.antt =====
-- Every pod that is evaluated is in the report.
use kubto.Prelude.{
  ◌≡◌, inl, inr, Bool, true, false, ◌||◌, Option, none, some, List, [], ◌∷◌, ◌++◌, String,
  str_eq_iff, Assoc, lookup, insert, lookup-insert, All, All-append_left, All-append_right,
  All-perm, subst, arith, Bool-cases,
}
use kubto.Platform.{Quantity, Float64}
use kubto.Monitor.Types.{PodInfo, ClusterState}
use kubto.Estimator.Bins.{PodCandidate}
use kubto.Estimator.Packing.{
  ResourceEstimator, Reason, Outcome, on_existing, on_new, opened, too_large, incompatible, Packing,
  choose, commit, pack, name_at,
}
use kubto.Estimator.Estimate.{
  start, candidate_of, is_unasked, note_pod, keep_pod, categorize, comes_first, Sorter, packed,
  estimate_detailed,
}
use kubto.Estimator.Estimate.Guarantees.{IsSorter}

abbrev pub has {ℓ} : {V : Type ℓ} → String → Assoc V → Bool
has k m = elim (lookup k m) [ none ↦ false | some _ ↦ true ]

-- The pod is in one of the report's two maps.
abbrev pub Reported : Assoc String → Assoc Reason → String → Type 0
Reported placed infeasible k = (has k placed || has k infeasible) ≡ true

abbrev InPacking : Packing → String → Type 0
InPacking st = Reported st.placed_pods st.infeasible_pods

module _ (n k : String) (st : Packing) where
  has_insert-keeps :
      (v : String) → InPacking st k → Reported (insert n v st.placed_pods) st.infeasible_pods k
  has_insert-keeps v h = ground (arith, lookup-insert n k v st.placed_pods)

  has_insert_infeasible-keeps :
      (v : Reason) → InPacking st k → Reported st.placed_pods (insert n v st.infeasible_pods) k
  has_insert_infeasible-keeps v h = ground (arith, lookup-insert n k v st.infeasible_pods)

module _ (n : String) (st : Packing) where
  has_insert_self : (v : String) → Reported (insert n v st.placed_pods) st.infeasible_pods n
  has_insert_self v = ground (arith, str_eq_iff n n, lookup-insert n n v st.placed_pods)

  has_insert_infeasible_self :
      (v : Reason) → Reported st.placed_pods (insert n v st.infeasible_pods) n
  has_insert_infeasible_self v =
      ground (arith, str_eq_iff n n, lookup-insert n n v st.infeasible_pods)

module _ {Q F : Type 0} (e : ResourceEstimator) where
  commit-keeps :
      (st : Packing) (pc : PodCandidate Q F) (o : Outcome) (k : String)
      → InPacking st k
      → InPacking (commit e st pc o) k
  unfolding commit
  commit-keeps st pc (on_existing i) k h =
      has_insert-keeps pc.info.name k st (name_at st.candidates i) h
  commit-keeps st pc (on_new i) k h =
      has_insert-keeps pc.info.name k st (name_at st.open_new_nodes i) h
  commit-keeps st pc (opened i) k h = has_insert-keeps pc.info.name k st _ h
  commit-keeps st pc too_large k h = has_insert_infeasible-keeps pc.info.name k st _ h
  commit-keeps st pc incompatible k h = has_insert_infeasible-keeps pc.info.name k st _ h

  commit-reports :
      (st : Packing) (pc : PodCandidate Q F) (o : Outcome)
      → InPacking (commit e st pc o) pc.info.name
  unfolding commit
  commit-reports st pc (on_existing i) = has_insert_self pc.info.name st _
  commit-reports st pc (on_new i) = has_insert_self pc.info.name st _
  commit-reports st pc (opened i) = has_insert_self pc.info.name st _
  commit-reports st pc too_large = has_insert_infeasible_self pc.info.name st _
  commit-reports st pc incompatible = has_insert_infeasible_self pc.info.name st _

  pack-keeps :
      (st : Packing) (pcs : List (PodCandidate Q F)) (k : String)
      → InPacking st k
      → InPacking (pack e st pcs) k
  unfolding pack
  pack-keeps st [] k h = h
  pack-keeps st (pc ∷ pcs) k h =
      pack-keeps (commit e st pc (choose e st pc)) pcs k (commit-keeps st pc (choose e st pc) k h)

  pack-reports :
      (st : Packing) (pcs : List (PodCandidate Q F))
      → All (λ pc. InPacking (pack e st pcs) pc.info.name) pcs
  unfolding pack
  pack-reports st [] = tt
  pack-reports st (pc ∷ pcs) =
      let next = commit e st pc (choose e st pc) in
      (
        pack-keeps next pcs pc.info.name (commit-reports st pc (choose e st pc)),
        pack-reports next pcs,
      )

module _ {Q F : Type 0} ⦃q : Quantity Q⦄ (fl : Float64 F) (e : ResourceEstimator) where
  note_pod-keeps :
      (st : Packing) (p : PodInfo Q) (k : String) → InPacking st k → InPacking (note_pod st p) k
  unfolding note_pod
  note_pod-keeps st p k h = elim (Bool-cases p.has_unsupported_constraints) [
    | inl a ↦ rw a (has_insert_infeasible-keeps p.name k st _ h)
    | inr a ↦ elim (Bool-cases (is_unasked p)) [
      | inl b ↦ rw (a, b) (has_insert-keeps p.name k st _ h)
      | inr b ↦ rw (a, b) h
    ]
  ]

  categorize-keeps :
      (st : Packing) (feasible : List (PodCandidate Q F)) (ps : List (PodInfo Q)) (k : String)
      → InPacking st k
      → InPacking (categorize fl e st feasible ps).0 k
  unfolding categorize
  categorize-keeps st feasible [] k h = h
  categorize-keeps st feasible (p ∷ ps) k h =
      categorize-keeps (note_pod st p) (keep_pod fl e feasible p) ps k (note_pod-keeps st p k h)

  keep_pod_kept :
      (feasible : List (PodCandidate Q F)) (p : PodInfo Q)
      → p.has_unsupported_constraints ≡ false
      → is_unasked p ≡ false
      → keep_pod fl e feasible p ≡ feasible ++ candidate_of fl e p ∷ []
  unfolding keep_pod
  keep_pod_kept feasible p a b = ground arith

  module _ (R : String → Type 0) where
    -- What holds of all feasible pods at the end holds of those that were there before.
    keep_pod-All :
        (feasible : List (PodCandidate Q F)) (p : PodInfo Q)
        → All (λ pc. R pc.info.name) (keep_pod fl e feasible p)
        → All (λ pc. R pc.info.name) feasible
    unfolding keep_pod
    keep_pod-All feasible p h = elim (Bool-cases (p.has_unsupported_constraints || is_unasked p)) [
      | inl a ↦ rw a at h
      | inr a ↦ All-append_left _ feasible (candidate_of fl e p ∷ []) (rw a at h)
    ]

    categorize-All :
        (st : Packing) (feasible : List (PodCandidate Q F)) (ps : List (PodInfo Q))
        → All (λ pc. R pc.info.name) (categorize fl e st feasible ps).1
        → All (λ pc. R pc.info.name) feasible
    unfolding categorize
    categorize-All st feasible [] h = h
    categorize-All st feasible (p ∷ ps) h =
        keep_pod-All feasible p (categorize-All (note_pod st p) (keep_pod fl e feasible p) ps h)

    -- A pod is written into the report at once, or is left to pack.
    round-reports :
        (st : Packing) (feasible : List (PodCandidate Q F)) (p : PodInfo Q)
        → (InPacking (note_pod st p) p.name → R p.name)
        → All (λ pc. R pc.info.name) (keep_pod fl e feasible p)
        → R p.name
    unfolding note_pod candidate_of
    round-reports st feasible p w h = elim (Bool-cases p.has_unsupported_constraints) [
      | inl a ↦ (rw a at w) (has_insert_infeasible_self p.name st _)
      | inr a ↦ elim (Bool-cases (is_unasked p)) [
        | inl b ↦ (rw (a, b) at w) (has_insert_self p.name st _)
        | inr b ↦
            (All-append_right (λ pc. R pc.info.name) feasible (candidate_of fl e p ∷ [])
              (subst (All (λ pc. R pc.info.name)) (keep_pod_kept feasible p a b) h)).0
      ]
    ]

    categorize-reports :
        (st : Packing) (feasible : List (PodCandidate Q F)) (ps : List (PodInfo Q))
        → ((k : String) → InPacking (categorize fl e st feasible ps).0 k → R k)
        → All (λ pc. R pc.info.name) (categorize fl e st feasible ps).1
        → All (λ p. R p.name) ps
    unfolding categorize
    categorize-reports st feasible [] w h = tt
    categorize-reports st feasible (p ∷ ps) w h =
        let st' = note_pod st p in
        let left = keep_pod fl e feasible p in
        (
          round-reports st feasible p (λ i. w p.name (categorize-keeps st' left ps p.name i))
              (categorize-All st' left ps h),
          categorize-reports st' left ps w h,
        )

  -- Where the sort permutes, every pod that is evaluated is, by its name, among the placed or the
  -- infeasible pods of the report.
  pub pods-Reported :
      (sort : Sorter Q F) (sorts : IsSorter sort) (state : Option (ClusterState Q))
      (ps : List (PodInfo Q))
      → let report = estimate_detailed fl sort e state ps in
        All (λ p. Reported report.placed_pods report.infeasible_pods p.name) ps
  unfolding estimate_detailed packed
  pods-Reported sort sorts state [] = tt
  pods-Reported sort sorts state (p ∷ ps) =
      let st = (categorize fl e (start state) [] (p ∷ ps)).0 in
      let feasible = (categorize fl e (start state) [] (p ∷ ps)).1 in
      let order = sort (comes_first fl) feasible in
      categorize-reports (InPacking (pack e st order)) (start state) [] (p ∷ ps)
        (λ k h. pack-keeps e st order k h)
        (All-perm _ (sorts.permutes (comes_first fl) feasible) (pack-reports e st order))
