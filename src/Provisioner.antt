-- ===== src/Provisioner.antt =====
-- autoscaler/pkg/provisioner: the interface `NodeProvisioner` of node_provisioner.go.
pub mod Fake
pub mod Counts
pub mod Kind
use kubto.Prelude.{Bool, String}

-- What `CreateNode` returns: a node's name or an error.
pub data Creation : Type 0 where
  created : String → Creation
  creation_failed : String → Creation

-- The methods, on the provisioner's own state `W`. `false` is an error.
pub record NodeProvisioner (W : Type 0) : Type 0 where
  pub create_node : W → Creation × W
  pub cordon_node : W → String → Bool × W
  pub terminate_node : W → String → Bool × W
