-- ===== src/Provisioner/Kind/Containers.antt =====
-- The containers that `CreateNode` of `KindNodeProvisioner` leaves behind, by its outcome.
use kubto.Prelude.{
  ℕ, zero, suc, ◌+◌, ◌≡◌, refl, Bool, true, false, List, [], ◌∷◌, String, str_eq, Option-cases,
  Bool-cases, inl, inr, arith, if◌then◌else◌,
}
use kubto.Provisioner.Kind.Api.{
  KindError, no_join_command, no_container, no_join, no_registration, not_ready, Result, ok, err,
  KindCall, KindHistory, KindEnv, M, continue, ◌>>=◌,
}
use kubto.Provisioner.Kind.{
  KindNodeProvisioner, node_rounds, container_name, run_args, remove_args, docker_run, nonempty,
  get_kubeadm_join_command, create_node_container, exec_kubeadm_join, remove_container, clean_up,
  registered, poll_registration, wait_for_node_registration, shows_ready, poll_ready,
  wait_for_node_ready, annotate_node, stamp, create_named, create_node,
}

abbrev is_command : String → List String → Bool
is_command name [] = false
is_command name (arg ∷ args) = str_eq arg name

-- Steps 5 and 6 after the registration.
abbrev pub await_node : {Q : Type 0} → KindEnv Q → String → M Q String
await_node env name = wait_for_node_ready env name >>= λ ready. stamp env ready

module _ {Q : Type 0} where
  -- How many `docker run` have succeeded, and how many `docker rm` were made.
  abbrev pub started : KindHistory Q → ℕ
  started [] = 0
  started (KindCall.ran_docker args true ∷ h) =
      let rest = started h in if is_command "run" args then suc rest else rest
  started (_ ∷ h) = started h

  abbrev pub removed : KindHistory Q → ℕ
  removed [] = 0
  removed (KindCall.ran_docker args fine ∷ h) =
      let rest = removed h in if is_command "rm" args then suc rest else rest
  removed (_ ∷ h) = removed h

  -- `s` more containers were started, and `r` more removals made.
  abbrev pub Counts : (s r : ℕ) → KindHistory Q → KindHistory Q → Type 0
  Counts s r h k = (started k ≡ started h + s) × (removed k ≡ removed h + r)

  -- What a failure leaves: nothing, where the join command or the container fails; a container that
  -- was started and removed, where joining fails; a container that was started, later.
  abbrev pub Failed : KindHistory Q → KindError → KindHistory Q → Type 0
  Failed h no_join_command = Counts 0 0 h
  Failed h no_container = Counts 0 0 h
  Failed h no_join = Counts 1 1 h
  Failed h no_registration = Counts 1 0 h
  Failed h (not_ready name) = Counts 1 0 h

  -- A success leaves `s` started containers, and a failure what it does.
  abbrev pub Leaves : {A : Type 0} → ℕ → KindHistory Q → Result A × KindHistory Q → Type 0
  Leaves s h (ok a, k) = Counts s 0 h k
  Leaves s h (err e, k) = Failed h e k

  continue-Leaves :
      {A B : Type 0} (s t : ℕ) (h : KindHistory Q) (f : A → M Q B) (r : Result A × KindHistory Q)
      → Leaves s h r
      → ((a : A) (k : KindHistory Q) → Counts s 0 h k → Leaves t h (f a k))
      → Leaves t h (continue f r)
  continue-Leaves s t h f (ok a, k) l next = next a k l
  continue-Leaves s t h f (err e, k) l next = l

  module _ (env : KindEnv Q) (h : KindHistory Q) where
    other_command-Counts :
        (s : ℕ) (args : List String) (fine : Bool) (k : KindHistory Q)
        → is_command "run" args ≡ false
        → is_command "rm" args ≡ false
        → Counts s 0 h k
        → Counts s 0 h (KindCall.ran_docker args fine ∷ k)
    other_command-Counts s args true k no_run no_rm c = rw (no_run, no_rm) c
    other_command-Counts s args false k no_run no_rm c = rw no_rm c

    -- A command of `docker exec` starts and removes nothing.
    exec-Leaves :
        (s : ℕ) (e : KindError) (args : List String) (k : KindHistory Q)
        → is_command "run" args ≡ false
        → is_command "rm" args ≡ false
        → ((l : KindHistory Q) → Counts s 0 h l → Failed h e l)
        → Counts s 0 h k
        → Leaves s h (docker_run env e args k)
    unfolding docker_run
    exec-Leaves s e args k no_run no_rm failed c = elim (Bool-cases (env.docker k args).1) [
      | inl fine ↦ rw fine (other_command-Counts s args true k no_run no_rm c)
      | inr bad ↦ rw bad (failed _ (other_command-Counts s args false k no_run no_rm c))
    ]

    nonempty-Leaves :
        (out : String) (k : KindHistory Q) → Counts 0 0 h k → Leaves 0 h (nonempty env out k)
    unfolding nonempty
    nonempty-Leaves out k c = elim (Bool-cases (str_eq out "")) [ inl e ↦ rw e c | inr e ↦ rw e c ]

    join_command-Leaves :
        (p : KindNodeProvisioner) (k : KindHistory Q)
        → Counts 0 0 h k
        → Leaves 0 h (get_kubeadm_join_command env p k)
    unfolding get_kubeadm_join_command
    join_command-Leaves p k c =
        continue-Leaves 0 0 h _ _ (exec-Leaves 0 no_join_command _ k refl refl (λ l d. d) c)
          (λ out l d. nonempty-Leaves _ l d)

    container-Leaves :
        (p : KindNodeProvisioner) (name : String) (k : KindHistory Q)
        → Counts 0 0 h k
        → Leaves 1 h (create_node_container env p name k)
    unfolding create_node_container docker_run
    container-Leaves p name k c = elim (Bool-cases (env.docker k (run_args p name)).1) [
      | inl fine ↦ rw fine (omega arith)
      | inr bad ↦ rw bad c
    ]

    removal-Counts :
        (name : String) (k : KindHistory Q)
        → Counts 1 0 h k
        → Counts 1 1 h (remove_container env name k).1
    unfolding remove_container
    removal-Counts name k c = elim (Bool-cases (env.docker k (remove_args name)).1) [
      | inl fine ↦ rw fine (omega arith)
      | inr bad ↦ rw bad (omega arith)
    ]

    join-Leaves :
        (name cmd : String) (k : KindHistory Q)
        → Counts 1 0 h k
        → Leaves 1 h (clean_up env name (exec_kubeadm_join env name cmd k))
    unfolding clean_up exec_kubeadm_join docker_run
    join-Leaves name cmd k c = elim (Bool-cases (env.is_cancelled k)) [
      | inl over ↦ rw over (removal-Counts name k c)
      | inr on ↦ elim (Bool-cases (env.docker k ("exec" ∷ name ∷ "sh" ∷ "-c" ∷ cmd ∷ [])).1) [
        | inl fine ↦ rw (on, fine, clean_up) c
        | inr bad ↦ rw (on, bad, clean_up) (removal-Counts name _ c)
      ]
    ]

    registration-Leaves :
        (rounds : ℕ) (name : String) (k : KindHistory Q)
        → Counts 1 0 h k
        → Leaves 1 h (poll_registration env rounds name k)
    unfolding poll_registration
    registration-Leaves zero name k c = c
    registration-Leaves (suc rounds) name k c =
        let after = KindCall.listed_nodes (env.list_nodes k) ∷ k in
        elim (Option-cases (registered env name (env.list_nodes k))) [
          | inr (n, e) ↦ rw (e, poll_registration) c
          | inl e ↦ elim (Bool-cases (env.is_cancelled after)) [
            | inl over ↦ rw (e, over, poll_registration) c
            | inr on ↦ rw (e, on, poll_registration) (registration-Leaves rounds name after c)
          ]
        ]

    ready-Leaves :
        (rounds : ℕ) (name : String) (k : KindHistory Q)
        → Counts 1 0 h k
        → Leaves 1 h (poll_ready env rounds name k)
    unfolding poll_ready
    ready-Leaves zero name k c = c
    ready-Leaves (suc rounds) name k c =
        let after = KindCall.got_node name (env.get_node k name) ∷ k in
        elim (Bool-cases (shows_ready env (env.get_node k name))) [
          | inl r ↦ rw r c
          | inr r ↦ elim (Bool-cases (env.is_cancelled after)) [
            | inl over ↦ rw (r, over) c
            | inr on ↦ rw (r, on) (ready-Leaves rounds name after c)
          ]
        ]

    stamp-Leaves :
        (name : String) (k : KindHistory Q) → Counts 1 0 h k → Leaves 1 h (stamp env name k)
    unfolding stamp annotate_node
    stamp-Leaves name k c = elim (Option-cases (env.get_node k name)) [
      | inl e ↦ rw (e, annotate_node) c
      | inr (n, e) ↦ rw (e, annotate_node) c
    ]

    waits-Leaves :
        (container : String) (k : KindHistory Q)
        → Counts 1 0 h k
        → Leaves 1 h (continue (await_node env) (wait_for_node_registration env container k))
    unfolding wait_for_node_registration wait_for_node_ready
    waits-Leaves container k c =
        continue-Leaves 1 1 h (await_node env) (wait_for_node_registration env container k)
          (registration-Leaves node_rounds container k c)
          (λ name l d.
            continue-Leaves 1 1 h (stamp env) (wait_for_node_ready env name l)
              (ready-Leaves node_rounds name l d) (λ ready m f. stamp-Leaves ready m f))

    named-Leaves :
        (p : KindNodeProvisioner) (container : String) (k : KindHistory Q)
        → Counts 0 0 h k
        → Leaves 1 h (create_named env p container k)
    unfolding create_named
    named-Leaves p container k c = continue-Leaves 0 1 h _ _ (join_command-Leaves p k c) (λ cmd l d.
        continue-Leaves 1 1 h _ _ (container-Leaves p container l d) (λ id m f.
          continue-Leaves 1 1 h _ _ (join-Leaves container cmd m f)
            (λ out n g. waits-Leaves container n g)))

  -- `CreateNode` starts one container where it returns a node, and removes none. Where it fails, it
  -- has started none before the container step; it has started one and made one removal where
  -- joining failed; and it has started one and removed none, which stays behind, where the node
  -- did not register or did not become ready.
  pub create_node-Leaves :
      (env : KindEnv Q) (p : KindNodeProvisioner) (h : KindHistory Q)
      → Leaves 1 h (create_node env p h)
  unfolding create_node
  create_node-Leaves env p h = named-Leaves env h p (container_name env p h) h (omega arith)
