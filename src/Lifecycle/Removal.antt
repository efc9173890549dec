-- ===== src/Lifecycle/Removal.antt =====
-- autoscaler/pkg/lifecycle/node_cleanup.go, and `RemoveNode` of idle_detector.go.
use kubto.Prelude.{
  Bool, true, false, not, Option, none, some, ◌∷◌, String, str_eq, lookup, if◌then◌else◌,
}
use kubto.Utils.{annotation_managed_by, managed_by_value}
use kubto.Kube.{Node}
use kubto.Lifecycle.Api.{Call, History, Env, Action}
use kubto.Lifecycle.Drain.{drain}

pub data RemoveError : Type 0 where
  get_failed not_managed update_failed drain_failed delete_failed : RemoveError

module _ {Q : Type 0} where
  -- A missing annotation reads as "".
  unfoldable pub is_managed : Node Q → Bool
  is_managed node = elim (lookup annotation_managed_by node.annotations) [
    | none ↦ false
    | some v ↦ str_eq v managed_by_value
  ]

  unfoldable pub run_hook : Env Q → String → History Q → History Q
  run_hook env name h = elim env.cleanup_hook [
    | none ↦ h
    | some hook ↦ Call.ran_hook name (hook h name) ∷ h
  ]

  -- The part of `Cleanup` after the delete call.
  abbrev pub after_delete : Env Q → String → Bool → History Q → Option RemoveError × History Q
  after_delete env name ok h =
      if not ok then (some RemoveError.delete_failed, h) else (none, run_hook env name h)

  unfoldable pub cleanup : Env Q → String → Action Q (Option RemoveError)
  cleanup env name h =
      let answer = env.get_node h name in
      let got = Call.got_node name answer ∷ h in
      let ok = env.delete_node got name in
      elim answer [
        | none ↦ (some RemoveError.get_failed, got)
        | some node ↦
            if not (is_managed node)
            then (some RemoveError.not_managed, got)
            else after_delete env name ok (Call.deleted_node name ok ∷ got)
      ]

  abbrev pub set_unschedulable : Node Q → Node Q
  set_unschedulable node = record node { unschedulable = true }

  unfoldable pub cordon : Env Q → String → Action Q (Option RemoveError)
  cordon env name h =
      let answer = env.get_node h name in
      let got = Call.got_node name answer ∷ h in
      elim answer [
        | none ↦ (some RemoveError.get_failed, got)
        | some node ↦
            let ok = env.update_node got (set_unschedulable node) in
            if node.unschedulable then (none, got) else (
              if ok then none else some RemoveError.update_failed,
              Call.updated_node (set_unschedulable node) ok ∷ got,
            )
      ]

  -- A failure of `docker rm` is not an error.
  unfoldable pub remove_kind_container : Env Q → String → History Q → History Q
  remove_kind_container env name h = Call.removed_container name (env.remove_container h name) ∷ h

  unfoldable pub finish_removal :
      Env Q → String → Option RemoveError × History Q → Option RemoveError × History Q
  finish_removal env name (some e, h) = (some e, h)
  finish_removal env name (none, h) = (none, remove_kind_container env name h)

  unfoldable pub after_drain : Env Q → String → Bool × History Q → Option RemoveError × History Q
  after_drain env name (false, h) = (some RemoveError.drain_failed, h)
  after_drain env name (true, h) = finish_removal env name (cleanup env name h)

  unfoldable pub after_cordon :
      Env Q → String → Option RemoveError × History Q → Option RemoveError × History Q
  after_cordon env name (some e, h) = (some e, h)
  after_cordon env name (none, h) = after_drain env name (drain env name h)

  unfoldable pub remove_node : Env Q → String → Action Q (Option RemoveError)
  remove_node env name h = after_cordon env name (cordon env name h)
