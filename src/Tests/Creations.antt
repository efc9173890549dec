-- ===== src/Tests/Creations.antt =====
-- The theorems on the provisioners at concrete inputs.
use kubto.Prelude.{add64, ℕ, ◌≡◌, refl, true, none, [], ◌∷◌, decimal, trim_space, has_suffix, arith}
use kubto.Provisioner.Fake.{FakeNodeProvisioner, Started, begin_create, end_create, fake_name}
use kubto.Provisioner.Fake.Overlap.{
  Overlapping, FakeReach, still, and_then, begins, wakes, IsUnique, overlapping-IsUnique,
}
use kubto.Utils.{annotation_managed_by, annotation_scaled_at, managed_by_value}
use kubto.Kube.{Node}
use kubto.Lifecycle.Api.{Env}
use kubto.Lifecycle.Removal.{remove_node}
use kubto.Lifecycle.Progress.{IsWilling}
use kubto.Lifecycle.Drain.{
  drain, wait_for_pods_gone, poll, evict_all, evict_pod, should_skip, is_finished, is_static_pod,
  is_daemon_set_pod, all_gone,
}
use kubto.Provisioner.Kind.Api.{ok, KindCall, KindHistory}
use kubto.Provisioner.Kind.Marks.{created-removable}
use kubto.Provisioner.Kind.{
  container_name, create_node, create_named, get_kubeadm_join_command, docker_run, nonempty,
  create_node_container, exec_kubeadm_join, clean_up, wait_for_node_registration, poll_registration,
  registered, find_node, wait_for_node_ready, poll_ready, shows_ready, stamp, annotate_node,
}
use kubto.Provisioner.Kind.Containers.{Leaves, create_node-Leaves}
use kubto.Provisioner.Kind.Calls.{CallsWithin, create_node-calls}
use kubto.Provisioner.Kind.Ready.{Ensures, Provisioned, create_node-Provisioned}
use kubto.Tests.Fixtures.{shown, healthy, kind, managed_node, obliging, api_pod}

-- It fails after two nodes.
abbrev two_only : FakeNodeProvisioner
two_only = record {
  created_nodes = [];
  cordoned_nodes = [];
  terminated_nodes = [];
  create_error = none;
  fail_after = 2;
  create_delay = 0;
  create_attempts = 0;
  cordon_error = none;
  terminate_error = none;
  counter = 0;
}

create_node-Leaves_example : Leaves 1 [] (create_node healthy kind [])
create_node-Leaves_example = create_node-Leaves healthy kind []

create_node-Provisioned_example :
    Ensures (Provisioned healthy (container_name healthy kind [])) (create_node healthy kind [])
create_node-Provisioned_example = create_node-Provisioned healthy kind []

-- The first call goes on after the second has begun; a context cuts the third short.
abbrev overlapped : Overlapping
overlapped = record { fake = two_only; asleep = [] }

abbrev first_asleep : Started
first_asleep = record { delay = 0; fail_limit = 2; create_err = none; already = 0 }

abbrev twice_begun : Overlapping
twice_begun = record {
  fake = record two_only { create_attempts = 2 };
  asleep = first_asleep ∷ first_asleep ∷ [];
}

abbrev once_awake : Overlapping
once_awake = record {
  fake = record twice_begun.fake { counter = 1; created_nodes = "fake-node-1" ∷ [] };
  asleep = first_asleep ∷ [];
}

abbrev overlap : FakeReach overlapped once_awake
unfolding begin_create end_create fake_name decimal add64
overlap =
    and_then (and_then (and_then still begins) begins)
      (wakes (first_asleep ∷ []) [] first_asleep refl)

overlapping-IsUnique_example : IsUnique ("fake-node-1" ∷ [])
unfolding overlap
overlapping-IsUnique_example = overlapping-IsUnique overlapped once_awake overlap refl (omega arith)

create_node-calls_example : CallsWithin 208 [] (create_node healthy kind [])
create_node-calls_example = create_node-calls healthy kind []

abbrev written : Node ℕ
written = record (managed_node "kind-worker-7") {
  annotations =
      (annotation_managed_by, managed_by_value)
      ∷ (annotation_scaled_at, "2024-01-01T00:00:00Z")
      ∷ [];
}

abbrev tail : KindHistory ℕ → KindHistory ℕ
tail [] = []
tail (call ∷ h) = h

created : create_node healthy kind [] ≡ (
  ok "kind-worker-7",
  KindCall.updated_node written true ∷ tail (create_node healthy kind []).1,
)
unfolding create_node create_named get_kubeadm_join_command docker_run nonempty trim_space
    create_node_container exec_kubeadm_join clean_up wait_for_node_registration poll_registration
    registered find_node wait_for_node_ready poll_ready shows_ready stamp annotate_node decimal
    has_suffix
created = refl

-- The API shows the node as it was written, and then cordoned.
abbrev shows_written : Env ℕ
shows_written = record obliging { get_node = λ h name. shown written h }

shows_written-IsWilling :
    IsWilling shows_written "kind-worker-7" written
      (api_pod "a" "Running" "kind-worker-7" 10 20 ∷ [])
      0
      []
unfolding evict_all evict_pod should_skip is_finished is_static_pod is_daemon_set_pod all_gone drain
    wait_for_pods_gone poll
shows_written-IsWilling = record {
  found = refl;
  updates = refl;
  lists = refl;
  gone = refl;
  patient = λ k. refl;
  found_cordoned = refl;
  deletes = refl;
}

created-removable_example : (remove_node shows_written "kind-worker-7" []).0 ≡ none
created-removable_example =
    created-removable healthy kind [] shows_written
      (api_pod "a" "Running" "kind-worker-7" 10 20 ∷ []) 0 [] created shows_written-IsWilling
      (omega arith)
