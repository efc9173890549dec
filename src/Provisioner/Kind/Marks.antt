-- ===== src/Provisioner/Kind/Marks.antt =====
-- The mark that `CreateNode` of `KindNodeProvisioner` leaves, and `Cleanup` of
-- autoscaler/pkg/lifecycle/node_cleanup.go looks for.
use kubto.Prelude.{
  ℕ, ◌<◌, ◌≡◌, ◌∙◌, refl, sym, subst, true, false, Option, none, some, List, [], ◌∷◌, String,
  str_eq, lookup, insert, lookup-insert, Option-cases, inl, inr, arith,
}
use kubto.Utils.{annotation_managed_by, annotation_scaled_at, managed_by_value}
use kubto.Kube.{Node, Pod}
use kubto.Lifecycle.Api.{History, Env}
use kubto.Lifecycle.Drain.{poll_rounds}
use kubto.Lifecycle.Removal.{is_managed, remove_node}
use kubto.Lifecycle.Progress.{IsWilling, remove_node_succeeds}
use kubto.Provisioner.Kind.Api.{ok, KindCall, KindHistory, KindEnv, ◌>>=◌}
use kubto.Provisioner.Kind.Containers.{await_node}
use kubto.Provisioner.Kind.Ready.{Ensures, after_any, start_node, join_node}
use kubto.Provisioner.Kind.{
  KindNodeProvisioner, annotated, annotate_node, stamp, container_name, create_named, create_node,
  get_kubeadm_join_command, create_node_container, exec_kubeadm_join, clean_up,
  wait_for_node_registration, wait_for_node_ready,
}

module _ {Q : Type 0} where
  -- `m` is `n` with annotations of its own, which `Cleanup` takes for the autoscaler's, and which
  -- but for the two that are written are those of `n`.
  pub record IsMarkedFrom (n m : Node Q) : Type 0 where
    pub managed : is_managed m ≡ true
    pub others :
        (k : String)
        → str_eq annotation_managed_by k ≡ false
        → str_eq annotation_scaled_at k ≡ false
        → lookup k m.annotations ≡ lookup k n.annotations
    pub same : m ≡ record n { annotations = m.annotations }

  annotated-IsMarkedFrom :
      (env : KindEnv Q) (time : String) (n : Node Q) → IsMarkedFrom n (annotated env time n)
  unfolding is_managed
  annotated-IsMarkedFrom env time n =
      let first = insert annotation_managed_by managed_by_value n.annotations in
      let looked : lookup annotation_managed_by (annotated env time n).annotations
          ≡ some managed_by_value =
        lookup-insert annotation_scaled_at annotation_managed_by time first
        ∙ lookup-insert annotation_managed_by annotation_managed_by managed_by_value
            n.annotations in
      record {
        managed = ground (arith, looked);
        others = λ k a b. ground (
          arith,
          lookup-insert annotation_scaled_at k time first,
          lookup-insert annotation_managed_by k managed_by_value n.annotations,
        );
        same = refl;
      }

  -- The newest calls read the node of this name, and wrote the marked node, if there was one.
  abbrev pub Stamped : String → KindHistory Q → Type 0
  Stamped name (KindCall.got_node asked none ∷ h) = asked ≡ name
  Stamped name (KindCall.updated_node m fine ∷ KindCall.got_node asked (some n) ∷ h) =
      (asked ≡ name) × IsMarkedFrom n m
  Stamped name _ = ⊥

  written-managed :
      (name : String) (m : Node Q) (k : KindHistory Q)
      → Stamped name (KindCall.updated_node m true ∷ k)
      → is_managed m ≡ true
  written-managed name m (KindCall.got_node asked (some n) ∷ k) (_, marked) = marked.managed
  written-managed name m (KindCall.got_node asked none ∷ k) h = elim h [ ]
  written-managed name m (KindCall.ran_docker args fine ∷ k) h = elim h [ ]
  written-managed name m (KindCall.listed_nodes ns ∷ k) h = elim h [ ]
  written-managed name m (KindCall.updated_node n fine ∷ k) h = elim h [ ]
  written-managed name m [] h = elim h [ ]

  module _ (env : KindEnv Q) where
    -- The history after the annotation.
    abbrev answered : String → KindHistory Q → Option (Node Q) → KindHistory Q
    answered name k none = KindCall.got_node name none ∷ k
    answered name k (some n) =
        let got = KindCall.got_node name (some n) ∷ k in
        let m = annotated env (env.timestamp got) n in
        KindCall.updated_node m (env.update_node got m) ∷ got

    answered-Stamped :
        (name : String) (k : KindHistory Q) (answer : Option (Node Q))
        → Stamped name (answered name k answer)
    answered-Stamped name k none = refl
    answered-Stamped name k (some n) = (refl, annotated-IsMarkedFrom env _ n)

    annotate-eq-answered :
        (name : String) (k : KindHistory Q)
        → (annotate_node env name k).1 ≡ answered name k (env.get_node k name)
    unfolding annotate_node
    annotate-eq-answered name k = elim (Option-cases (env.get_node k name)) [
      | inl e ↦ simp (e, annotate_node)
      | inr (n, e) ↦ simp (e, annotate_node)
    ]

    stamp-Stamped : (name : String) (k : KindHistory Q) → Ensures Stamped (stamp env name k)
    unfolding stamp
    stamp-Stamped name k =
        subst (Stamped name) (sym (annotate-eq-answered name k))
          (answered-Stamped name k (env.get_node k name))

    -- A node that `CreateNode` returns was then read and, if the API showed it, written back with
    -- the mark that `Cleanup` looks for and with all else unchanged but the time of its creation.
    pub create_node-Stamped :
        (p : KindNodeProvisioner) (h : KindHistory Q) → Ensures Stamped (create_node env p h)
    unfolding create_node create_named
    create_node-Stamped p h =
        after_any Stamped (start_node env p (container_name env p h))
          (get_kubeadm_join_command env p h)
          (λ cmd l.
            after_any Stamped (λ id. join_node env (container_name env p h) cmd)
              (create_node_container env p (container_name env p h) l)
              (λ id m.
                after_any Stamped
                  (λ out.
                    wait_for_node_registration env (container_name env p h) >>= await_node env)
                  (clean_up env (container_name env p h)
                    (exec_kubeadm_join env (container_name env p h) cmd m))
                  (λ out n.
                    after_any Stamped (await_node env)
                      (wait_for_node_registration env (container_name env p h) n)
                      (λ name o.
                        after_any Stamped (stamp env) (wait_for_node_ready env name o)
                          stamp-Stamped))))

module _ {Q : Type 0} (kind_env : KindEnv Q) (p : KindNodeProvisioner) (h : KindHistory Q)
    (env : Env Q) where
  -- From creation to removal: where CreateNode's last call wrote the node back with success, and
  -- the API then shows that node and carries out what it is asked, `RemoveNode` returns no error
  -- if the node's pods are gone within the 25 polls of the drain.
  pub created-removable :
      {name : String} {m : Node Q} {k : KindHistory Q} (pods : List (Pod Q)) (j : ℕ) (g : History Q)
      → create_node kind_env p h ≡ (ok name, KindCall.updated_node m true ∷ k)
      → IsWilling env name m pods j g
      → j < poll_rounds
      → (remove_node env name g).0 ≡ none
  created-removable {name} {m} {k} pods j g created willing soon =
      remove_node_succeeds env name m pods j g soon
        (written-managed name m k
          (subst (Ensures Stamped) created (create_node-Stamped kind_env p h)))
        willing
