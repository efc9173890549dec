-- ===== src/Lifecycle/Drain.antt =====
-- autoscaler/pkg/lifecycle/node_drain.go
use kubto.Prelude.{
  ℕ, zero, suc, ◌+◌, ◌/◌, ◌==◌, Bool, true, false, not, ◌||◌, Option, none, some, List, [], ◌∷◌,
  String, str_eq, lookup, any, select, length, if◌then◌else◌,
}
use kubto.Utils.{default_drain_timeout_seconds}
use kubto.Kube.{Pod}
use kubto.Lifecycle.Api.{
  evict_ok, evict_not_found, evict_too_many_requests, evict_failed, Call, History, Env, Action,
}

abbrev is_set : Option String → Bool
is_set none = false
is_set (some _) = true

-- The first poll, and one for each tick of 5 seconds that the timeout leaves time for.
abbrev pub poll_rounds : ℕ
poll_rounds = default_drain_timeout_seconds / 5_000_000_000 + 1

module _ {Q : Type 0} where
  unfoldable pub is_finished : Pod Q → Bool
  is_finished pod = str_eq pod.phase "Succeeded" || str_eq pod.phase "Failed"

  unfoldable pub is_daemon_set_pod : Pod Q → Bool
  is_daemon_set_pod pod = any (λ kind. str_eq kind "DaemonSet") pod.owner_kinds

  unfoldable pub is_static_pod : Pod Q → Bool
  is_static_pod pod = is_set (lookup "kubernetes.io/config.mirror" pod.annotations)

  unfoldable pub should_skip : Pod Q → Bool
  should_skip pod =
      if is_finished pod
      then true
      else if is_static_pod pod
      then true
      else if is_daemon_set_pod pod
      then true
      else false

  unfoldable skip_reason : Pod Q → String
  skip_reason pod =
      if is_finished pod
      then "completed"
      else if is_static_pod pod
      then "static-pod"
      else if is_daemon_set_pod pod
      then "daemonset"
      else "unknown"

  -- The answer is recorded; `true` stands for no error.
  unfoldable pub evict_pod : Env Q → Pod Q → Action Q Bool
  evict_pod env pod h =
      let answer = env.evict h pod.namespace pod.name in
      (
        elim answer [
          | evict_ok ↦ true
          | evict_not_found ↦ true
          | evict_too_many_requests ↦ false
          | evict_failed ↦ false
        ],
        Call.evicted pod.namespace pod.name answer ∷ h,
      )

  -- The loop of `Drain`: an error of one pod does not stop it.
  unfoldable pub evict_all : Env Q → List (Pod Q) → History Q → History Q
  evict_all env [] h = h
  evict_all env (pod ∷ pods) h =
      evict_all env pods (if should_skip pod then h else (evict_pod env pod h).1)

  -- One poll: no evictable pod remains.
  unfoldable pub all_gone : Option (List (Pod Q)) → Bool
  all_gone none = false
  all_gone (some pods) = length (select (λ pod. not (should_skip pod)) pods) == 0

  -- `PollUntilContextCancel`, immediate: the first poll is made at once, each later one at a tick,
  -- until one succeeds or the context ends. `rounds` bounds the polls.
  unfoldable pub poll : ℕ → Env Q → String → Action Q Bool
  poll zero env name h = (false, h)
  poll (suc rounds) env name h =
      let answer = env.list_pods h name in
      let after = Call.listed_pods name answer ∷ h in
      let rest = poll rounds env name after in
      if all_gone answer
      then (true, after)
      else if env.is_cancelled after
      then (false, after)
      else rest

  unfoldable pub wait_for_pods_gone : Env Q → String → Action Q Bool
  wait_for_pods_gone env name h = poll poll_rounds env name h

  unfoldable pub drain : Env Q → String → Action Q Bool
  drain env name h =
      let answer = env.list_pods h name in
      let after = Call.listed_pods name answer ∷ h in
      elim answer [
        | none ↦ (false, after)
        | some pods ↦ wait_for_pods_gone env name (evict_all env pods after)
      ]
