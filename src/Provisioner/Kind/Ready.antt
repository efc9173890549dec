-- ===== src/Provisioner/Kind/Ready.antt =====
-- What a node is that `CreateNode` of `KindNodeProvisioner` returns.
use Prim.Native.String.{◌++◌}
use Prim.Native.String.append.{nil, cons}
use kubto.Prelude.{
  ℕ, zero, suc, ◌≡◌, refl, sym, ap, ◌∙◌, subst, true, Option, none, some, List, [], ◌∷◌, String,
  str_eq, str_eq_iff, has_suffix, Option-cases, Bool-cases, inl, inr,
}
use mathlib.Core.Option.{some-injective}
use kubto.Kube.{Node}
use kubto.Provisioner.Kind.Api.{Result, ok, err, KindCall, KindHistory, KindEnv, M, continue, ◌>>=◌}
use kubto.Provisioner.Kind.Containers.{await_node}
use kubto.Provisioner.Kind.{
  KindNodeProvisioner, node_rounds, container_name, is_match, find_node, registered,
  poll_registration, wait_for_node_registration, shows_ready, poll_ready, wait_for_node_ready,
  annotate_node, stamp, create_named, create_node, get_kubeadm_join_command, create_node_container,
  exec_kubeadm_join, clean_up,
}

-- `name` is `suffix`, with some text before it.
abbrev EndsIn : String → String → Type 0
EndsIn suffix name = (before : String) × (name ≡ before ++ suffix)

same-EndsIn : (s suffix : String) → str_eq s suffix ≡ true → EndsIn suffix s
same-EndsIn s suffix e = ("", (str_eq_iff s suffix).0 e ∙ sym (nil suffix))

has_suffix-EndsIn : (s suffix : String) → has_suffix s suffix ≡ true → EndsIn suffix s
unfolding has_suffix
has_suffix-EndsIn String.[] suffix e = same-EndsIn String.[] suffix e
has_suffix-EndsIn (String.◌∷◌ c s) suffix e = elim (Bool-cases (str_eq (String.◌∷◌ c s) suffix)) [
  | inl h ↦ same-EndsIn (String.◌∷◌ c s) suffix h
  | inr h ↦
      let (before, split) = has_suffix-EndsIn s suffix (rw h at e) in
      (String.◌∷◌ c before, ap (String.◌∷◌ c) split ∙ sym (cons c before suffix))
]

-- Steps 4 to 6, and 2 to 6.
abbrev pub join_node : {Q : Type 0} → KindEnv Q → String → String → M Q String
join_node env container cmd =
    (λ h. clean_up env container (exec_kubeadm_join env container cmd h)) >>= λ out.
    wait_for_node_registration env container >>= await_node env

abbrev pub start_node :
    {Q : Type 0} → KindEnv Q → KindNodeProvisioner → String → String → M Q String
start_node env p container cmd =
    create_node_container env p container >>= λ id. join_node env container cmd

module _ {Q : Type 0} where
  -- In the history stands an answer that shows the node of this name ready.
  pub data IsReady (env : KindEnv Q) (name : String) : KindHistory Q → Type 0 where
    here :
        {n : Node Q} {h : KindHistory Q}
        → shows_ready env (some n) ≡ true
        → IsReady env name (KindCall.got_node name (some n) ∷ h)
    there :
        {call : KindCall Q} {h : KindHistory Q} → IsReady env name h → IsReady env name (call ∷ h)

  -- A success satisfies `P`.
  abbrev pub Ensures :
      {A : Type 0} → (A → KindHistory Q → Type 0) → Result A × KindHistory Q → Type 0
  Ensures P (ok a, h) = P a h
  Ensures P (err e, h) = Unit

  -- Nothing is asked of the step before.
  pub after_any :
      {A B : Type 0} (R : B → KindHistory Q → Type 0) (f : A → M Q B) (r : Result A × KindHistory Q)
      → ((a : A) (k : KindHistory Q) → Ensures R (f a k))
      → Ensures R (continue f r)
  after_any R f (ok a, k) next = next a k
  after_any R f (err e, k) next = tt

  pub continue-Ensures :
      {A B : Type 0} (P : A → KindHistory Q → Type 0) (R : B → KindHistory Q → Type 0)
      (f : A → M Q B) (r : Result A × KindHistory Q)
      → Ensures P r
      → ((a : A) (k : KindHistory Q) → P a k → Ensures R (f a k))
      → Ensures R (continue f r)
  continue-Ensures P R f (ok a, k) p next = next a k p
  continue-Ensures P R f (err e, k) p next = tt

  module _ (env : KindEnv Q) where
    match-EndsIn :
        (container : String) (n : Node Q)
        → is_match env container n ≡ true
        → EndsIn container n.name
    match-EndsIn container n e = elim (Bool-cases (str_eq n.name container)) [
      | inl h ↦ same-EndsIn n.name container h
      | inr h ↦ has_suffix-EndsIn n.name container (rw h at e)
    ]

    find_node-EndsIn :
        (container name : String) (ns : List (Node Q))
        → find_node env container ns ≡ some name
        → EndsIn container name
    unfolding find_node
    find_node-EndsIn container name [] e = cc
    find_node-EndsIn container name (n ∷ ns) e = elim (Bool-cases (is_match env container n)) [
      | inl h ↦
          subst (EndsIn container) (some-injective _ _ (rw h at e)) (match-EndsIn container n h)
      | inr h ↦ find_node-EndsIn container name ns (rw h at e)
    ]

    registered-EndsIn :
        (container name : String) (answer : Option (List (Node Q)))
        → registered env container answer ≡ some name
        → EndsIn container name
    unfolding registered
    registered-EndsIn container name none e = cc
    registered-EndsIn container name (some ns) e = find_node-EndsIn container name ns e

    registration-EndsIn :
        (rounds : ℕ) (container : String) (k : KindHistory Q)
        → Ensures (λ name h. EndsIn container name) (poll_registration env rounds container k)
    unfolding poll_registration
    registration-EndsIn zero container k = tt
    registration-EndsIn (suc rounds) container k =
        let answer = env.list_nodes k in
        let after = KindCall.listed_nodes answer ∷ k in
        elim (Option-cases (registered env container answer)) [
          | inr (n, e) ↦ rw (e, poll_registration) (registered-EndsIn container n answer e)
          | inl e ↦ elim (Bool-cases (env.is_cancelled after)) [
            | inl over ↦ rw (e, over, poll_registration) tt
            | inr on ↦ rw (e, on, poll_registration) (registration-EndsIn rounds container after)
          ]
        ]

    answer-IsReady :
        (name : String) (answer : Option (Node Q)) (k : KindHistory Q)
        → shows_ready env answer ≡ true
        → IsReady env name (KindCall.got_node name answer ∷ k)
    unfolding shows_ready
    answer-IsReady name none k e = cc
    answer-IsReady name (some n) k e = IsReady.here e

    poll-IsReady :
        (rounds : ℕ) (name : String) (k : KindHistory Q)
        → Ensures (λ m h. (m ≡ name) × IsReady env name h) (poll_ready env rounds name k)
    unfolding poll_ready
    poll-IsReady zero name k = tt
    poll-IsReady (suc rounds) name k =
        let after = KindCall.got_node name (env.get_node k name) ∷ k in
        elim (Bool-cases (shows_ready env (env.get_node k name))) [
          | inl r ↦ rw r (refl, answer-IsReady name (env.get_node k name) k r)
          | inr r ↦ elim (Bool-cases (env.is_cancelled after)) [
            | inl over ↦ rw (r, over) tt
            | inr on ↦ rw (r, on) (poll-IsReady rounds name after)
          ]
        ]

    -- The node's name ends in the container's, and the API showed it ready.
    abbrev pub Provisioned : String → String → KindHistory Q → Type 0
    Provisioned container name h = EndsIn container name × IsReady env name h

    stamp-Provisioned :
        (container name : String) (k : KindHistory Q)
        → EndsIn container name
        → IsReady env name k
        → Ensures (Provisioned container) (stamp env name k)
    unfolding stamp annotate_node
    stamp-Provisioned container name k ends r = elim (Option-cases (env.get_node k name)) [
      | inl e ↦ rw (e, annotate_node) (ends, IsReady.there r)
      | inr (n, e) ↦ rw (e, annotate_node) (ends, IsReady.there (IsReady.there r))
    ]

    waits-Provisioned :
        (container : String) (k : KindHistory Q)
        → Ensures
            (Provisioned container)
            (continue (await_node env) (wait_for_node_registration env container k))
    unfolding wait_for_node_registration wait_for_node_ready
    waits-Provisioned container k =
        continue-Ensures (λ name h. EndsIn container name) (Provisioned container) (await_node env)
          (wait_for_node_registration env container k) (registration-EndsIn node_rounds container k)
          (λ name l ends.
            continue-Ensures (λ m h. (m ≡ name) × IsReady env name h) (Provisioned container)
              (stamp env) (wait_for_node_ready env name l) (poll-IsReady node_rounds name l)
              (λ m n ready.
                stamp-Provisioned container m n (subst (EndsIn container) (sym ready.0) ends)
                  (subst (λ x. IsReady env x n) (sym ready.0) ready.1)))

    named-Provisioned :
        (p : KindNodeProvisioner) (container : String) (k : KindHistory Q)
        → Ensures (Provisioned container) (create_named env p container k)
    unfolding create_named
    named-Provisioned p container k =
        after_any (Provisioned container) (start_node env p container)
          (get_kubeadm_join_command env p k)
          (λ cmd l.
            after_any (Provisioned container) (λ id. join_node env container cmd)
              (create_node_container env p container l)
              (λ id m.
                after_any (Provisioned container)
                  (λ out. wait_for_node_registration env container >>= await_node env)
                  (clean_up env container (exec_kubeadm_join env container cmd m))
                  (λ out n. waits-Provisioned container n)))

    -- A node that `CreateNode` returns has the name of the new container, with some text before
    -- it at most, and was shown as ready by an answer of the API.
    pub create_node-Provisioned :
        (p : KindNodeProvisioner) (h : KindHistory Q)
        → Ensures (Provisioned (container_name env p h)) (create_node env p h)
    unfolding create_node
    create_node-Provisioned p h = named-Provisioned p (container_name env p h) h
