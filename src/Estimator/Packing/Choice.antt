-- ===== src/Estimator/Packing/Choice.antt =====
-- Which branch the packing loop takes for a pod.
use kubto.Prelude.{
  ◌≤◌, ◌<◌, ◌≡◌, ◌⊎◌, inl, inr, Bool, true, false, not, ◌||◌, none, some, length, Option-cases,
  arith, if◌then◌else◌, lt64, lt64-lt,
}
use kubto.Estimator.Constraints.{can_pod_fit_constraints}
use kubto.Estimator.Bins.{PodCandidate, best_fit}
use kubto.Estimator.Bins.BestFit.{IsRequest, Found, best_fit-Found}
use kubto.Estimator.Packing.{
  ResourceEstimator, Outcome, on_existing, on_new, opened, too_large, incompatible, Packing, choose,
}
use kubto.Estimator.Packing.Trace.{IsTemplate, IsInRange}

module _ {Q F : Type 0} (e : ResourceEstimator) (st : Packing) (pc : PodCandidate Q F) where
  -- The template of new nodes meets the pod's constraints.
  abbrev IsCompatible : Bool → Type 0
  IsCompatible b = can_pod_fit_constraints pc.info e.node_labels e.node_taints ≡ b

  -- No existing and no new bin can hold the pod.
  abbrev NoBin : Type 0
  NoBin = Found pc st.candidates none × Found pc st.open_new_nodes none

  -- When each branch is the right one.
  abbrev pub Chosen : Outcome → Type 0
  Chosen (on_existing i) = Found pc st.candidates (some i)
  Chosen (on_new j) = Found pc st.candidates none × Found pc st.open_new_nodes (some j)
  Chosen (opened k) =
      NoBin
      × (k ≡ length st.open_new_nodes)
      × IsCompatible true
      × (pc.cpu_milli ≤ e.node_cpu_capacity_millicores)
      × (pc.mem_bytes ≤ e.node_memory_capacity_bytes)
  Chosen too_large =
      NoBin
      × ((e.node_cpu_capacity_millicores < pc.cpu_milli)
          ⊎ (e.node_memory_capacity_bytes < pc.mem_bytes))
  Chosen incompatible = NoBin × IsCompatible false

module _ {Q F : Type 0} (e : ResourceEstimator) (t : IsTemplate e) where
  template_branch-Chosen :
      (st : Packing) (pc : PodCandidate Q F)
      → IsRequest pc
      → NoBin e st pc
      → Chosen e st pc (
          if lt64 e.node_cpu_capacity_millicores pc.cpu_milli
            || lt64 e.node_memory_capacity_bytes pc.mem_bytes
          then too_large
          else if not (can_pod_fit_constraints pc.info e.node_labels e.node_taints)
          then incompatible
          else opened (length st.open_new_nodes))
  template_branch-Chosen st pc r h = ground (
    arith,
    t.cpu,
    t.mem,
    r.cpu,
    r.mem,
    lt64-lt e.node_cpu_capacity_millicores pc.cpu_milli,
    lt64-lt e.node_memory_capacity_bytes pc.mem_bytes,
  )

  -- With bins, template and request in range, the branch that the loop takes is the right one: the
  -- best existing node that can hold the pod, else the best new node that can, else one more new
  -- node, unless the pod is too large for the template or its constraints exclude it.
  pub choose-Chosen :
      (st : Packing) (pc : PodCandidate Q F)
      → IsInRange st
      → IsRequest pc
      → Chosen e st pc (choose e st pc)
  unfolding choose
  choose-Chosen st pc v r = elim (Option-cases (best_fit pc st.candidates)) [
    | inr (i, a) ↦ rw (a, choose) (rw a at (best_fit-Found pc r st.candidates v.candidates))
    | inl a ↦
        let none_old = rw a at (best_fit-Found pc r st.candidates v.candidates) in
        elim (Option-cases (best_fit pc st.open_new_nodes)) [
          | inr (j, b) ↦
              rw (a, choose, b)
                (none_old, rw b at (best_fit-Found pc r st.open_new_nodes v.open_new_nodes))
          | inl b ↦
              rw (a, choose, b)
                (template_branch-Chosen st pc r
                  (none_old, rw b at (best_fit-Found pc r st.open_new_nodes v.open_new_nodes)))
        ]
  ]
