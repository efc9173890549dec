-- ===== src/Provisioner/Kind/Instance.antt =====
-- `KindNodeProvisioner` as a `NodeProvisioner` (autoscaler/pkg/provisioner/node_provisioner.go).
-- Its state is the history of its calls.
use kubto.Prelude.{String, ◌<>◌}
use kubto.Provisioner.{Creation, created, creation_failed, NodeProvisioner}
use kubto.Provisioner.Kind.Api.{
  KindError, no_join_command, no_container, no_join, no_registration, not_ready, Result, ok, err,
  KindHistory, KindEnv,
}
use kubto.Provisioner.Kind.{KindNodeProvisioner, create_node, cordon_node, terminate_node}

-- The step that an error of `CreateNode` names.
pub describe : KindError → String
describe no_join_command = "step 1 — get join command"
describe no_container = "step 2 — create container"
describe no_join = "step 4 — kubeadm join"
describe no_registration = "step 5 — node registration"
describe (not_ready name) = "step 6 — node " <> (name <> " not ready")

abbrev creation_of : Result String → Creation
creation_of (ok name) = created name
creation_of (err e) = creation_failed (describe e)

unfoldable pub kind_provisioner :
    {Q : Type 0} → KindEnv Q → KindNodeProvisioner → NodeProvisioner (KindHistory Q)
kind_provisioner env p = record {
  create_node = λ h. let (result, k) = create_node env p h in (creation_of result, k);
  cordon_node = λ h name. cordon_node env name h;
  terminate_node = λ h name. terminate_node env name h;
}
