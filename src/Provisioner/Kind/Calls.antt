-- ===== src/Provisioner/Kind/Calls.antt =====
-- How many calls `CreateNode` of `KindNodeProvisioner` makes.
use kubto.Prelude.{
  ℕ, zero, suc, ◌+◌, ◌≤◌, Option-cases, Bool-cases, inl, inr, List, ◌∷◌, String, arith, length,
}
use kubto.Provisioner.Kind.Api.{
  KindError, Result, ok, err, KindCall, KindHistory, KindEnv, M, continue,
}
use kubto.Provisioner.Kind.{
  KindNodeProvisioner, node_rounds, container_name, docker_run, nonempty, get_kubeadm_join_command,
  create_node_container, exec_kubeadm_join, remove_container, clean_up, registered,
  poll_registration, wait_for_node_registration, shows_ready, poll_ready, wait_for_node_ready,
  annotate_node, stamp, create_named, create_node,
}
use kubto.Provisioner.Kind.Containers.{await_node}

module _ {Q : Type 0} where
  -- A result, with the history after it, of at most `n` calls.
  unfoldable pub CallsWithin : {A : Type 0} → ℕ → KindHistory Q → Result A × KindHistory Q → Type 0
  CallsWithin n h r = length r.1 ≤ length h + n

  -- The step makes at most `n` calls.
  abbrev MakesAtMost : {A : Type 0} → ℕ → M Q A → Type 0
  MakesAtMost n step = (h : KindHistory Q) → CallsWithin n h (step h)

  -- The result of a step and what follows it.
  bind-calls :
      {A B : Type 0} (m n : ℕ) (h : KindHistory Q) (f : A → M Q B) (r : Result A × KindHistory Q)
      → CallsWithin m h r
      → ((a : A) → MakesAtMost n (f a))
      → CallsWithin (m + n) h (continue f r)
  unfolding CallsWithin
  bind-calls m n h f (ok a, k) first next = omega (arith, first, next a k)
  bind-calls m n h f (err e, k) first next = omega (arith, first)

module _ {Q : Type 0} (env : KindEnv Q) where
  docker-calls : (e : KindError) (args : List String) → MakesAtMost 1 (docker_run env e args)
  unfolding CallsWithin docker_run
  docker-calls e args h = omega arith

  nonempty-calls : (out : String) → MakesAtMost 0 (nonempty env out)
  unfolding CallsWithin nonempty
  nonempty-calls out h = omega arith

  clean_up-calls :
      (container : String) (r : Result String × KindHistory Q)
      → length (clean_up env container r).1 ≤ length r.1 + 1
  unfolding CallsWithin clean_up remove_container
  clean_up-calls container (ok out, h) = omega arith
  clean_up-calls container (err e, h) = omega arith

  join-calls : (container cmd : String) → MakesAtMost 1 (exec_kubeadm_join env container cmd)
  unfolding CallsWithin exec_kubeadm_join docker_run
  join-calls container cmd h = elim (Bool-cases (env.is_cancelled h)) [
    | inl over ↦ rw over (omega arith)
    | inr on ↦ rw on (omega arith)
  ]

  registration-calls :
      (rounds : ℕ) (container : String)
      → MakesAtMost rounds (poll_registration env rounds container)
  unfolding CallsWithin poll_registration
  registration-calls zero container h = omega arith
  registration-calls (suc rounds) container h =
      let after = KindCall.listed_nodes (env.list_nodes h) ∷ h in
      elim (Option-cases (registered env container (env.list_nodes h))) [
        | inr (n, e) ↦ rw (e, poll_registration) (omega arith)
        | inl e ↦ elim (Bool-cases (env.is_cancelled after)) [
          | inl over ↦ rw (e, over, poll_registration) (omega arith)
          | inr on ↦
              rw (e, on, poll_registration)
                (omega (arith, registration-calls rounds container after))
        ]
      ]

  ready-calls : (rounds : ℕ) (name : String) → MakesAtMost rounds (poll_ready env rounds name)
  unfolding CallsWithin poll_ready
  ready-calls zero name h = omega arith
  ready-calls (suc rounds) name h =
      let after = KindCall.got_node name (env.get_node h name) ∷ h in
      elim (Bool-cases (shows_ready env (env.get_node h name))) [
        | inl r ↦ rw r (omega arith)
        | inr r ↦ elim (Bool-cases (env.is_cancelled after)) [
          | inl over ↦ rw (r, over) (omega arith)
          | inr on ↦ rw (r, on) (omega (arith, ready-calls rounds name after))
        ]
      ]

  stamp-calls : (name : String) → MakesAtMost 2 (stamp env name)
  unfolding CallsWithin stamp annotate_node
  stamp-calls name h = elim (Option-cases (env.get_node h name)) [
    | inl e ↦ rw (e, annotate_node) (omega arith)
    | inr (n, e) ↦ rw (e, annotate_node) (omega arith)
  ]

  cleaned-calls :
      (container cmd : String)
      → MakesAtMost 2 (λ h. clean_up env container (exec_kubeadm_join env container cmd h))
  unfolding CallsWithin
  cleaned-calls container cmd h = omega (
    arith,
    join-calls container cmd h,
    clean_up-calls container (exec_kubeadm_join env container cmd h),
  )

  join_command-calls : (p : KindNodeProvisioner) → MakesAtMost 1 (get_kubeadm_join_command env p)
  unfolding get_kubeadm_join_command
  join_command-calls p h = bind-calls 1 0 h _ _ (docker-calls _ _ h) (λ out. nonempty-calls _)

  container-calls :
      (p : KindNodeProvisioner) (name : String) → MakesAtMost 1 (create_node_container env p name)
  unfolding create_node_container
  container-calls p name = docker-calls _ _

  ready_and_stamp-calls : (name : String) → MakesAtMost 103 (await_node env name)
  unfolding wait_for_node_ready
  ready_and_stamp-calls name h =
      bind-calls 101 2 h (stamp env) (wait_for_node_ready env name h)
        (ready-calls node_rounds name h) stamp-calls

  waits-calls :
      (container : String)
      → MakesAtMost 204
          (λ h. continue (await_node env) (wait_for_node_registration env container h))
  unfolding wait_for_node_registration
  waits-calls container h =
      bind-calls 101 103 h (await_node env) (wait_for_node_registration env container h)
        (registration-calls node_rounds container h) ready_and_stamp-calls

  named-calls :
      (p : KindNodeProvisioner) (container : String)
      → MakesAtMost 208 (create_named env p container)
  unfolding create_named
  named-calls p container h = bind-calls 1 207 h _ _ (join_command-calls p h) (λ cmd k.
      bind-calls 1 206 k _ _ (container-calls p container k) (λ id l.
        bind-calls 2 204 l _ _ (cleaned-calls container cmd l) (λ out. waits-calls container)))

  -- `CreateNode` ends: it makes at most 208 calls of docker and of the API, whatever they answer
  -- and whichever waits are cut short.
  pub create_node-calls : (p : KindNodeProvisioner) → MakesAtMost 208 (create_node env p)
  unfolding create_node
  create_node-calls p h = named-calls p (container_name env p h) h
