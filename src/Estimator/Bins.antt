-- ===== src/Estimator/Bins.antt =====
-- `simulatedNode` and the best-fit search (autoscaler/pkg/estimator/resource_estimator.go). A
-- pointer to a bin is its index in its list.
pub mod BestFit
use kubto.Prelude.{
  ℕ, suc, ◌*◌, ◌-◌, Bool, true, false, ◌&&◌, ◌||◌, Option, none, some, List, [], ◌∷◌, String, ◌==◌,
  if◌then◌else◌, int64_mod, add64, sub64, div64, lt64, le64,
}
use kubto.Kube.{Taint}
use kubto.Monitor.Types.{PodInfo}
use kubto.Estimator.Constraints.{Labels, can_pod_fit_constraints}

pub record SimulatedNode : Type 0 where
  pub name : String
  pub is_new : Bool
  pub free_cpu : ℕ
  pub free_mem : ℕ
  pub labels : Labels
  pub taints : List Taint

pub record PodCandidate (Q F : Type 0) : Type 0 where
  pub info : PodInfo Q
  pub cpu_milli : ℕ
  pub mem_bytes : ℕ
  pub score : F

-- `bestExisting` (or `bestNew`) and `bestRemaining`, which starts at -1.
pub record Best : Type 0 where
  pub node : Option ℕ
  pub remaining : ℕ

abbrev pub minus_one : ℕ
minus_one = int64_mod - 1

abbrev pub mebibyte : ℕ
mebibyte = 1024 * 1024

abbrev pub no_best : Best
no_best = record { node = none; remaining = minus_one }

module _ {Q F : Type 0} where
  unfoldable pub remaining_after : PodCandidate Q F → SimulatedNode → ℕ
  remaining_after pc n =
      add64 (sub64 n.free_cpu pc.cpu_milli) (div64 (sub64 n.free_mem pc.mem_bytes) mebibyte)

  -- The pod's constraints hold on the node, and its requests fit.
  unfoldable pub can_hold : PodCandidate Q F → SimulatedNode → Bool
  can_hold pc n =
      if can_pod_fit_constraints pc.info n.labels n.taints
      then le64 pc.cpu_milli n.free_cpu && le64 pc.mem_bytes n.free_mem
      else false

  unfoldable pub improve : PodCandidate Q F → ℕ → SimulatedNode → Best → Best
  improve pc i n best =
      if can_hold pc n
      then if best.remaining == minus_one || lt64 (remaining_after pc n) best.remaining
        then record { node = some i; remaining = remaining_after pc n }
        else best
      else best

  unfoldable pub search_from : PodCandidate Q F → ℕ → Best → List SimulatedNode → Best
  unfolding improve
  search_from pc i best [] = best
  search_from pc i best (n ∷ ns) = search_from pc (suc i) (improve pc i n best) ns

  unfoldable pub best_fit : PodCandidate Q F → List SimulatedNode → Option ℕ
  unfolding search_from
  best_fit pc nodes = (search_from pc 0 no_best nodes).node

  -- `node.freeCPU -= pc.cpuMilli; node.freeMem -= pc.memBytes`.
  unfoldable pub take_capacity : PodCandidate Q F → SimulatedNode → SimulatedNode
  take_capacity pc n = record n {
    free_cpu = sub64 n.free_cpu pc.cpu_milli;
    free_mem = sub64 n.free_mem pc.mem_bytes;
  }
