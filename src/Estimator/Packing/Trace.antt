-- ===== src/Estimator/Packing/Trace.antt =====
-- What the packing loop did with each pod, and the amounts that the theorems about it add up.
use kubto.Prelude.{
  ℕ, ◌+◌, ◌^◌, ◌<◌, Bool, true, false, List, [], ◌∷◌, length, get_elem?, none, some, All, ltb, ◌==◌,
  if◌then◌else◌,
}
use kubto.Estimator.Bins.{SimulatedNode, PodCandidate}
use kubto.Estimator.Bins.BestFit.{IsBin}
use kubto.Estimator.Packing.{
  ResourceEstimator, Outcome, on_existing, on_new, opened, Packing, choose, commit,
}

pub data Resource : Type 0 where
  cpu mem : Resource

abbrev pub free : Resource → SimulatedNode → ℕ
free cpu n = n.free_cpu
free mem n = n.free_mem

abbrev pub request : {Q F : Type 0} → Resource → PodCandidate Q F → ℕ
request cpu pc = pc.cpu_milli
request mem pc = pc.mem_bytes

abbrev pub capacity : Resource → ResourceEstimator → ℕ
capacity cpu e = e.node_cpu_capacity_millicores
capacity mem e = e.node_memory_capacity_bytes

-- The template of new nodes has capacities in range.
pub record IsTemplate (e : ResourceEstimator) : Type 0 where
  pub cpu : e.node_cpu_capacity_millicores < 2 ^ 62
  pub mem : e.node_memory_capacity_bytes < 2 ^ 63

abbrev pub Entry : (Q F : Type 0) → Type 0
Entry Q F = PodCandidate Q F × Outcome

module _ {Q F : Type 0} (e : ResourceEstimator) where
  -- The pods with the branch that each took.
  abbrev pub trace : Packing → List (PodCandidate Q F) → List (Entry Q F)
  trace st [] = []
  trace st (pc ∷ pcs) = let o = choose e st pc in (pc, o) ∷ trace (commit e st pc o) pcs

abbrev pub on_existing_bin : ℕ → Outcome → Bool
on_existing_bin k (on_existing i) = k == i
on_existing_bin k _ = false

abbrev pub on_new_bin : ℕ → Outcome → Bool
on_new_bin k (on_new j) = k == j
on_new_bin k (opened j) = k == j
on_new_bin k _ = false

abbrev pub on_any_new : Outcome → Bool
on_any_new (on_new j) = true
on_any_new (opened j) = true
on_any_new _ = false

module _ {Q F : Type 0} where
  -- The requests of the pods whose branch passes the test.
  abbrev pub held : Resource → (Outcome → Bool) → List (Entry Q F) → ℕ
  held r test [] = 0
  held r test ((pc, o) ∷ es) = (if test o then request r pc else 0) + held r test es

abbrev pub free_at : Resource → List SimulatedNode → ℕ → ℕ
free_at r ns k = elim (get_elem? ns k) [ none ↦ 0 | some n ↦ free r n ]

-- The room of the k-th new node, opened or not yet.
abbrev pub room_at : Resource → ResourceEstimator → List SimulatedNode → ℕ → ℕ
room_at r e ns k = if ltb k (length ns) then free_at r ns k else capacity r e

-- Both lists hold bins in range.
pub record IsInRange (st : Packing) : Type 0 where
  pub candidates : All IsBin st.candidates
  pub open_new_nodes : All IsBin st.open_new_nodes
