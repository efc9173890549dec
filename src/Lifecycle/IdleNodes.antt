-- ===== src/Lifecycle/IdleNodes.antt =====
-- The nodes that `FindIdleNodes` returns.
use kubto.Prelude.{
  ◌≡◌, ◌≢◌, refl, subst, sym, inl, inr, true, false, Option, none, some, List, [], ◌∷◌, String, All,
  any, Bool-cases, arith,
}
use kubto.Platform.{Quantity, Float64}
use kubto.Kube.{Pod}
use kubto.Monitor.Types.{NodeInfo}
use kubto.Lifecycle.Api.{Call, History, Env}
use kubto.Lifecycle.Idle.{
  is_workload_pod, workload_answer, keep_idle, node_has_workload_pods, is_underused,
  find_idle_nodes,
}

module _ {Q : Type 0} where
  -- In the history stands a list of the node's pods, and none of them is a workload.
  pub data IsQuiet (name : String) : History Q → Type 0 where
    here :
        {pods : List (Pod Q)} {h : History Q}
        → All (λ pod. is_workload_pod pod ≡ false) pods
        → IsQuiet name (Call.listed_pods name (some pods) ∷ h)
    there : {call : Call Q} {h : History Q} → IsQuiet name h → IsQuiet name (call ∷ h)

  no_workload :
      (pods : List (Pod Q))
      → any is_workload_pod pods ≡ false
      → All (λ pod. is_workload_pod pod ≡ false) pods
  no_workload [] e = tt
  no_workload (pod ∷ pods) e = ground (arith, no_workload pods)

  listing-IsQuiet :
      (name : String) (pods : List (Pod Q)) (answer : Option (List (Pod Q))) (h : History Q)
      → answer ≡ some pods
      → any is_workload_pod pods ≡ false
      → IsQuiet name (Call.listed_pods name answer ∷ h)
  listing-IsQuiet name pods answer h e quiet =
      subst (λ a. IsQuiet name (Call.listed_pods name a ∷ h)) (sym e)
        (IsQuiet.here (no_workload pods quiet))

  keep_idle-All :
      (P : NodeInfo Q → Type 0) (n : NodeInfo Q) (answer : Option (List (Pod Q)))
      (rest : List (NodeInfo Q))
      → All P rest
      → ((pods : List (Pod Q)) → answer ≡ some pods → any is_workload_pod pods ≡ false → P n)
      → All P (keep_idle n (workload_answer answer) rest)
  keep_idle-All P n none rest all h = all
  keep_idle-All P n (some pods) rest all h = elim (Bool-cases (any is_workload_pod pods)) [
    | inl e ↦ rw e all
    | inr e ↦ rw e (h pods refl e, all)
  ]

module _ {Q F : Type 0} ⦃q : Quantity Q⦄ (fl : Float64 F) (threshold : F) (env : Env Q) where
  -- The node is ready and open for pods, and the given share of its CPU is not reached.
  pub record IsUnderused (n : NodeInfo Q) : Type 0 where
    pub ready : n.ready ≡ true
    pub schedulable : n.unschedulable ≡ false
    pub allocatable : q.milli_value n.allocatable_cpu ≢ 0
    pub below :
        fl.ge
          (fl.mul
            (fl.div
              (fl.of_int64 (q.milli_value n.used_cpu))
              (fl.of_int64 (q.milli_value n.allocatable_cpu)))
            (fl.of_int64 100))
          threshold
        ≡ false

  is_underused-IsUnderused : (n : NodeInfo Q) → is_underused fl threshold n ≡ true → IsUnderused n
  unfolding is_underused
  is_underused-IsUnderused n e = ground arith

  find-grows :
      (ns : List (NodeInfo Q)) (h : History Q) (name : String)
      → IsQuiet name h
      → IsQuiet name (find_idle_nodes fl threshold env ns h).1
  unfolding find_idle_nodes node_has_workload_pods
  find-grows [] h name s = s
  find-grows (n ∷ ns) h name s = elim (Bool-cases (is_underused fl threshold n)) [
    | inl u ↦ rw u (find-grows ns _ name (IsQuiet.there s))
    | inr u ↦ rw u (find-grows ns h name s)
  ]

  -- Each node returned is ready, open for pods and below the CPU threshold, and the API listed its
  -- pods without an error and without a workload pod.
  pub find-IsIdle :
      (ns : List (NodeInfo Q)) (h : History Q)
      → All
          (λ n. IsUnderused n × IsQuiet n.name (find_idle_nodes fl threshold env ns h).1)
          (find_idle_nodes fl threshold env ns h).0
  unfolding find_idle_nodes node_has_workload_pods
  find-IsIdle [] h = tt
  find-IsIdle (n ∷ ns) h = elim (Bool-cases (is_underused fl threshold n)) [
    | inr u ↦ rw u (find-IsIdle ns h)
    | inl u ↦
        let answer = env.list_pods h n.name in
        let after = Call.listed_pods n.name answer ∷ h in
        rw u (
          keep_idle-All _ n answer _ (find-IsIdle ns after) (λ pods e none_runs. (
            is_underused-IsUnderused n u,
            find-grows ns after n.name (listing-IsQuiet n.name pods answer h e none_runs),
          )))
  ]
