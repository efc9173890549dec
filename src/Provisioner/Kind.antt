-- ===== src/Provisioner/Kind.antt =====
-- autoscaler/pkg/provisioner/node_provisioner.go: `KindNodeProvisioner`. The wait that is cut short
-- by its context, and the timeout of a poll, are the environment's `is_cancelled`.
pub mod Api
pub mod Containers
pub mod Calls
pub mod Ready
pub mod Instance
pub mod Marks
use kubto.Prelude.{
  ℕ, zero, suc, ◌+◌, ◌/◌, ◌*◌, Bool, true, false, ◌&&◌, ◌||◌, Option, none, some, List, [], ◌∷◌,
  String, str_eq, ◌<>◌, decimal, has_suffix, trim_space, insert, any, if◌then◌else◌,
}
use kubto.Utils.{
  second, annotation_managed_by, annotation_scaled_at, managed_by_value, node_ready, condition_true,
}
use kubto.Kube.{Node, NodeCondition}
use kubto.Provisioner.{Creation, created, creation_failed, NodeProvisioner}
use kubto.Provisioner.Kind.Api.{
  KindError, no_join_command, no_container, no_join, no_registration, not_ready, Result, ok, err,
  KindCall, KindHistory, KindEnv, M, pure, ◌>>=◌, ◌>>◌,
}

abbrev pub default_kind_node_image : String
default_kind_node_image = "kindest/node:v1.29.2"

abbrev pub default_kind_cluster_name : String
default_kind_cluster_name = "kind"

abbrev node_ready_timeout : ℕ
node_ready_timeout = 5 * 60 * second

abbrev node_check_interval : ℕ
node_check_interval = 3 * second

-- The first poll, and one for each tick that the timeout leaves time for.
abbrev pub node_rounds : ℕ
node_rounds = node_ready_timeout / node_check_interval + 1

pub record KindNodeProvisioner : Type 0 where
  pub cluster_name : String
  pub node_image : String
  pub network_name : String

unfoldable pub new_kind_node_provisioner : String → KindNodeProvisioner
new_kind_node_provisioner name =
    let cluster = if str_eq name "" then default_kind_cluster_name else name in
    record { cluster_name = cluster; node_image = default_kind_node_image; network_name = cluster }

abbrev pub run_args : KindNodeProvisioner → String → List String
run_args p name =
    "run"
    ∷ "--detach"
    ∷ "--name"
    ∷ name
    ∷ "--hostname"
    ∷ name
    ∷ "--network"
    ∷ p.network_name
    ∷ "--privileged"
    ∷ "--security-opt"
    ∷ "seccomp=unconfined"
    ∷ "--tmpfs"
    ∷ "/tmp"
    ∷ "--tmpfs"
    ∷ "/run"
    ∷ "--volume"
    ∷ "/var"
    ∷ "--volume"
    ∷ "/lib/modules:/lib/modules:ro"
    ∷ "--label"
    ∷ "io.x-k8s.kind.role=worker"
    ∷ "--label"
    ∷ ("io.x-k8s.kind.cluster=" <> p.cluster_name)
    ∷ p.node_image
    ∷ "/sbin/init"
    ∷ []

abbrev pub remove_args : String → List String
remove_args name = "rm" ∷ "-f" ∷ name ∷ []

module _ {Q : Type 0} (env : KindEnv Q) where
  -- `dockerRun`: the output, or the given error.
  unfoldable pub docker_run : KindError → List String → M Q String
  docker_run e args h =
      let (out, fine) = env.docker h args in
      (if fine then ok out else err e, KindCall.ran_docker args fine ∷ h)

  unfoldable pub nonempty : String → M Q String
  nonempty cmd h = (if str_eq cmd "" then err no_join_command else ok cmd, h)

  unfoldable pub get_kubeadm_join_command : KindNodeProvisioner → M Q String
  unfolding docker_run nonempty
  get_kubeadm_join_command p = do
    out ← docker_run no_join_command (
        "exec"
        ∷ (p.cluster_name <> "-control-plane")
        ∷ "kubeadm"
        ∷ "token"
        ∷ "create"
        ∷ "--print-join-command"
        ∷ [])
    nonempty (trim_space out)

  unfoldable pub create_node_container : KindNodeProvisioner → String → M Q String
  unfolding docker_run
  create_node_container p name = docker_run no_container (run_args p name)

  unfoldable pub exec_kubeadm_join : String → String → M Q String
  unfolding docker_run
  exec_kubeadm_join container cmd h =
      if env.is_cancelled h
      then (err no_join, h)
      else docker_run no_join ("exec" ∷ container ∷ "sh" ∷ "-c" ∷ cmd ∷ []) h

  -- `true` stands for no error.
  unfoldable pub remove_container : String → KindHistory Q → Bool × KindHistory Q
  remove_container name h =
      let fine = (env.docker h (remove_args name)).1 in
      (fine, KindCall.ran_docker (remove_args name) fine ∷ h)

  -- Step 4 of `CreateNode`: after a failure the container is removed, whatever comes of that.
  unfoldable pub clean_up : String → Result String × KindHistory Q → Result String × KindHistory Q
  unfolding remove_container
  clean_up container (ok out, h) = (ok out, h)
  clean_up container (err e, h) = (err e, (remove_container container h).1)

  abbrev pub is_match : String → Node Q → Bool
  is_match container n = str_eq n.name container || has_suffix n.name container

  -- The loop over the nodes that the API lists.
  unfoldable pub find_node : String → List (Node Q) → Option String
  find_node container [] = none
  find_node container (n ∷ ns) =
      if is_match container n then some n.name else find_node container ns

  unfoldable pub registered : String → Option (List (Node Q)) → Option String
  unfolding find_node
  registered container none = none
  registered container (some ns) = find_node container ns

  -- The poll of `waitForNodeRegistration`; `rounds` bounds it.
  unfoldable pub poll_registration : ℕ → String → M Q String
  unfolding registered
  poll_registration zero container h = (err no_registration, h)
  poll_registration (suc rounds) container h =
      let answer = env.list_nodes h in
      let after = KindCall.listed_nodes answer ∷ h in
      let rest = poll_registration rounds container after in
      elim (registered container answer) [
        | some name ↦ (ok name, after)
        | none ↦ if env.is_cancelled after then (err no_registration, after) else rest
      ]

  unfoldable pub wait_for_node_registration : String → M Q String
  wait_for_node_registration container = poll_registration node_rounds container

  -- Some condition of the node says that it is ready.
  unfoldable pub shows_ready : Option (Node Q) → Bool
  shows_ready none = false
  shows_ready (some n) =
      any (λ c. str_eq c.type node_ready && str_eq c.status condition_true) n.conditions

  unfoldable pub poll_ready : ℕ → String → M Q String
  unfolding shows_ready
  poll_ready zero name h = (err (not_ready name), h)
  poll_ready (suc rounds) name h =
      let answer = env.get_node h name in
      let after = KindCall.got_node name answer ∷ h in
      let rest = poll_ready rounds name after in
      if shows_ready answer
      then (ok name, after)
      else if env.is_cancelled after
      then (err (not_ready name), after)
      else rest

  -- `WaitForNodeReady`, which hands the name on.
  unfoldable pub wait_for_node_ready : String → M Q String
  wait_for_node_ready name = poll_ready node_rounds name

  abbrev annotated : String → Node Q → Node Q
  annotated stamp n = record n {
    annotations =
        insert annotation_scaled_at stamp
          (insert annotation_managed_by managed_by_value n.annotations);
  }

  unfoldable pub annotate_node : String → KindHistory Q → Bool × KindHistory Q
  annotate_node name h =
      let answer = env.get_node h name in
      let got = KindCall.got_node name answer ∷ h in
      elim answer [
        | none ↦ (false, got)
        | some n ↦
            let marked = annotated (env.timestamp got) n in
            let fine = env.update_node got marked in (fine, KindCall.updated_node marked fine ∷ got)
      ]

  -- The end of `CreateNode`: that the annotation fails is no error.
  unfoldable pub stamp : String → M Q String
  unfolding annotate_node
  stamp name h = (ok name, (annotate_node name h).1)

  abbrev pub container_name : KindNodeProvisioner → KindHistory Q → String
  container_name p h = p.cluster_name <> ("-worker-" <> decimal (env.unix_nano h))

  -- `CreateNode` for a container of this name.
  unfoldable pub create_named : KindNodeProvisioner → String → M Q String
  unfolding get_kubeadm_join_command create_node_container exec_kubeadm_join clean_up
      wait_for_node_registration poll_registration wait_for_node_ready poll_ready stamp
  create_named p container = do
    cmd ← get_kubeadm_join_command p
    id ← create_node_container p container
    out ← (λ h. clean_up container (exec_kubeadm_join container cmd h))
    name ← wait_for_node_registration container
    ready ← wait_for_node_ready name
    stamp ready

  unfoldable pub create_node : KindNodeProvisioner → M Q String
  unfolding create_named
  create_node p h = create_named p (container_name p h) h

  unfoldable pub cordon_node : String → KindHistory Q → Bool × KindHistory Q
  cordon_node name h =
      let answer = env.get_node h name in
      let got = KindCall.got_node name answer ∷ h in
      elim answer [
        | none ↦ (false, got)
        | some n ↦
            let closed = record n { unschedulable = true } in
            let fine = env.update_node got closed in
            if n.unschedulable then (true, got) else (fine, KindCall.updated_node closed fine ∷ got)
      ]

  unfoldable pub terminate_node : String → KindHistory Q → Bool × KindHistory Q
  unfolding remove_container
  terminate_node name h = remove_container name h
