-- ===== src/Estimator/Packing/Allowed.antt =====
-- The packing loop puts each pod on a node whose labels and taints meet its constraints.
use kubto.Prelude.{
  ℕ, zero, suc, ◌<◌, ◌≡◌, refl, ap, ◌⊎◌, true, false, none, some, List, [], ◌∷◌, map, get_elem?,
  modify, All, All-get_elem?, subst,
}
use kubto.Kube.{Taint}
use kubto.Monitor.Types.{PodInfo}
use kubto.Estimator.Constraints.{Labels, can_pod_fit_constraints}
use kubto.Estimator.Constraints.Meaning.{Meets, can_fit_iff}
use kubto.Estimator.Bins.{SimulatedNode, PodCandidate, take_capacity}
use kubto.Estimator.Bins.BestFit.{IsBin, IsRequest, can_hold-Fits}
use kubto.Estimator.Packing.{
  ResourceEstimator, Outcome, on_existing, on_new, opened, too_large, incompatible, Packing, choose,
  commit,
}
use kubto.Estimator.Packing.Choice.{Chosen, choose-Chosen}
use kubto.Estimator.Packing.Trace.{IsTemplate, Entry, trace, IsInRange}
use kubto.Estimator.Packing.Capacity.{commit-IsInRange}
use kubto.Estimator.Packing.Merging.{IsLikeTemplate, IsSpread, commit-IsSpread}

-- What a pod's constraints look at.
abbrev pub host : SimulatedNode → Labels × List Taint
host n = (n.labels, n.taints)

fits-Meets :
    {Q : Type 0} (pod : PodInfo Q) (labels : Labels) (taints : List Taint)
    → can_pod_fit_constraints pod labels taints ≡ true
    → Meets pod labels taints
fits-Meets pod labels taints = (can_fit_iff pod labels taints).0

misfits-Meets :
    {Q : Type 0} (pod : PodInfo Q) (labels : Labels) (taints : List Taint)
    → can_pod_fit_constraints pod labels taints ≡ false
    → ¬ Meets pod labels taints
misfits-Meets pod labels taints misfits met = let fits = (can_fit_iff pod labels taints).1 met in cc

module _ {Q F : Type 0} (e : ResourceEstimator) where
  -- The node that the pod was put on meets its constraints; a pod that was put on none exceeds
  -- the template, or the template does not meet its constraints.
  abbrev pub Allowed : List (Labels × List Taint) → Entry Q F → Type 0
  Allowed hosts (pc, on_existing i) = elim (get_elem? hosts i) [
    | none ↦ ⊥
    | some (labels, taints) ↦ Meets pc.info labels taints
  ]
  Allowed hosts (pc, on_new j) = Meets pc.info e.node_labels e.node_taints
  Allowed hosts (pc, opened k) = Meets pc.info e.node_labels e.node_taints
  Allowed hosts (pc, too_large) =
      (e.node_cpu_capacity_millicores < pc.cpu_milli)
      ⊎ (e.node_memory_capacity_bytes < pc.mem_bytes)
  Allowed hosts (pc, incompatible) = ¬ Meets pc.info e.node_labels e.node_taints

map-modify :
    {A B : Type 0} (h : A → B) (f : A → A) (xs : List A) (i : ℕ)
    → ((x : A) → h (f x) ≡ h x)
    → map h (modify xs i f) ≡ map h xs
map-modify h f [] i same = refl
map-modify h f (x ∷ xs) zero same = ap (λ y. y ∷ map h xs) (same x)
map-modify h f (x ∷ xs) (suc i) same = ap (λ ys. h x ∷ ys) (map-modify h f xs i same)

get_elem?-map :
    {A B : Type 0} (h : A → B) (xs : List A) (i : ℕ) (x : A)
    → get_elem? xs i ≡ some x
    → get_elem? (map h xs) i ≡ some (h x)
get_elem?-map h [] i x g = cc
get_elem?-map h (y ∷ xs) zero x g = cc
get_elem?-map h (y ∷ xs) (suc i) x g = get_elem?-map h xs i x g

module _ {Q F : Type 0} (e : ResourceEstimator) (t : IsTemplate e) where
  module _ (st : Packing) (v : IsInRange st) (pc : PodCandidate Q F) (r : IsRequest pc) where
    Chosen-Allowed :
        (o : Outcome)
        → Chosen e st pc o
        → All (IsLikeTemplate e) st.open_new_nodes
        → Allowed e (map host st.candidates) (pc, o)
    Chosen-Allowed (on_existing i) (n, g, can, _) like =
        rw (get_elem?-map host st.candidates i n g, Allowed)
          (fits-Meets pc.info n.labels n.taints
            (can_hold-Fits pc r n (All-get_elem? IsBin st.candidates i n v.candidates g) can).0)
    Chosen-Allowed (on_new j) (_, (n, g, can, _)) like =
        let same = All-get_elem? (IsLikeTemplate e) st.open_new_nodes j n like g in
        rw (← (same.0), ← (same.1))
          (fits-Meets pc.info n.labels n.taints
            (can_hold-Fits pc r n (All-get_elem? IsBin st.open_new_nodes j n v.open_new_nodes g)
              can).0)
    Chosen-Allowed (opened k) c like = fits-Meets pc.info e.node_labels e.node_taints c.2
    Chosen-Allowed too_large c like = c.1
    Chosen-Allowed incompatible c like = misfits-Meets pc.info e.node_labels e.node_taints c.1

    commit-hosts : (o : Outcome) → map host (commit e st pc o).candidates ≡ map host st.candidates
    unfolding commit take_capacity
    commit-hosts (on_existing i) = map-modify host (take_capacity pc) st.candidates i (λ n. refl)
    commit-hosts (on_new j) = refl
    commit-hosts (opened k) = refl
    commit-hosts too_large = refl
    commit-hosts incompatible = refl

  pub trace-Allowed :
      (st : Packing) (pcs : List (PodCandidate Q F))
      → IsInRange st
      → All IsRequest pcs
      → IsSpread e st.open_new_nodes
      → All (Allowed e (map host st.candidates)) (trace e st pcs)
  trace-Allowed st [] v r s = tt
  trace-Allowed st (pc ∷ pcs) v r s =
      let o = choose e st pc in
      let c = choose-Chosen e t st pc v r.0 in
      (
        Chosen-Allowed st v pc r.0 o c s.like,
        subst (λ hosts. All (Allowed e hosts) (trace e (commit e st pc o) pcs))
            (commit-hosts st v pc r.0 o)
            (trace-Allowed (commit e st pc o) pcs (commit-IsInRange e t st v pc r.0 o c) r.1
              (commit-IsSpread e t st v pc r.0 o c s)),
      )
