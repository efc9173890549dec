-- ===== src/Tests/Removals.antt =====
-- The theorems on the lifecycle manager at concrete inputs.
use kubto.Prelude.{ℕ, ◌≡◌, refl, true, none, some, List, [], ◌∷◌, All}
use kubto.Kube.{Node}
use kubto.Monitor.Types.{NodeInfo}
use mathlib.Core.Option.{some-injective}
use kubto.Lifecycle.Api.{History, Env}
use kubto.Lifecycle.Idle.{find_idle_nodes}
use kubto.Lifecycle.IdleNodes.{IsUnderused, IsQuiet, find-IsIdle}
use kubto.Lifecycle.Removal.{is_managed, cordon, remove_node}
use kubto.Lifecycle.Evictions.{evictions, note_all, evictable, remove_node-evictions}
use kubto.Lifecycle.Safety.{IsSafe, remove_node-IsSafe}
use kubto.Lifecycle.Effects.{is_ok, Adds, remove_node-Adds}
use kubto.Lifecycle.Unmanaged.{ShowsNoMark, asked_to_cordon, Extends, IsError, remove_unmanaged}
use kubto.Lifecycle.Drain.{
  drain, wait_for_pods_gone, poll, evict_all, evict_pod, should_skip, is_finished, is_static_pod,
  is_daemon_set_pod, all_gone,
}
use kubto.Tests.Instances.{fractions, natural}
use kubto.Tests.Fixtures.{shown, api_pod, managed_node, obliging, ready_node}

remove_node-IsSafe_example : IsSafe (remove_node obliging "worker" []).1
remove_node-IsSafe_example = remove_node-IsSafe obliging "worker" [] tt

remove_node-Adds_example :
    Adds (is_ok (remove_node obliging "worker" []).0) [] (remove_node obliging "worker" []).1
remove_node-Adds_example = remove_node-Adds obliging "worker" (λ h name. true) refl []

abbrev idle_and_busy : List (NodeInfo ℕ)
idle_and_busy = ready_node "busy" 1900 100 ∷ ready_node "idle" 100 100 ∷ []

find-IsIdle_example :
    let found = find_idle_nodes fractions (20, 1) obliging idle_and_busy [] in
    All (λ n. IsUnderused fractions (20, 1) obliging n × IsQuiet n.name found.1) found.0
find-IsIdle_example = find-IsIdle fractions (20, 1) obliging idle_and_busy []

-- The control plane's node, which no autoscaler provisioned.
abbrev control_plane : Node ℕ
control_plane = record (managed_node "control-plane") { annotations = [] }

abbrev with_control_plane : Env ℕ
with_control_plane = record obliging { get_node = λ h name. shown control_plane h }

abbrev asked : History ℕ
asked = asked_to_cordon with_control_plane "control-plane" control_plane []

-- The API keeps the cordon, and the mark does not appear.
never_marked :
    ShowsNoMark with_control_plane "control-plane"
      (drain with_control_plane "control-plane" asked).1
unfolding is_managed drain evict_all evict_pod should_skip is_finished is_static_pod
    is_daemon_set_pod wait_for_pods_gone poll all_gone
never_marked n e = rw (← (some-injective _ _ e)) refl

remove_unmanaged_example :
    IsError (remove_node with_control_plane "control-plane" []).0
    × Extends asked (remove_node with_control_plane "control-plane" []).1
remove_unmanaged_example =
    remove_unmanaged with_control_plane "control-plane" control_plane [] refl refl never_marked

not_cordoned_before : (cordon obliging "worker" []).0 ≡ none
unfolding cordon
not_cordoned_before = refl

pod_is_listed :
    obliging.list_pods (cordon obliging "worker" []).1 "worker"
    ≡ some (api_pod "a" "Running" "worker" 10 20 ∷ [])
unfolding cordon
pod_is_listed = refl

remove_node-evictions_example :
    evictions (remove_node obliging "worker" []).1
    ≡ note_all (evictable (api_pod "a" "Running" "worker" 10 20 ∷ [])) []
remove_node-evictions_example =
    remove_node-evictions obliging "worker" (api_pod "a" "Running" "worker" 10 20 ∷ []) []
      not_cordoned_before pod_is_listed
