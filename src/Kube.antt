-- ===== src/Kube.antt =====
-- The Kubernetes API objects (k8s.io/api/core/v1), with the fields that the autoscaler reads.
-- A pointer is an `Option`, or a `Bool` where only its being nil is asked.
use kubto.Prelude.{ℕ, Bool, Option, List, String, Assoc}

pub record Taint : Type 0 where
  pub key : String
  pub value : String
  pub effect : String

pub record Toleration : Type 0 where
  pub key : String
  pub operator : String
  pub value : String
  pub effect : String

pub record PodCondition : Type 0 where
  pub type : String
  pub reason : String
  pub message : String

pub record NodeCondition : Type 0 where
  pub type : String
  pub status : String

-- Each field says whether the pointer is set.
pub record Affinity : Type 0 where
  pub pod_affinity : Bool
  pub pod_anti_affinity : Bool
  pub node_affinity : Bool
  pub node_affinity_required : Bool

pub record Container (Q : Type 0) : Type 0 where
  pub requests : Assoc Q
  pub restart_policy : Option String

pub record Pod (Q : Type 0) : Type 0 where
  pub name : String
  pub namespace : String
  pub annotations : Assoc String
  pub owner_kinds : List String  -- the Kind of each owner reference
  pub phase : String
  pub conditions : List PodCondition
  pub node_name : String
  pub priority_class_name : String
  pub containers : List (Container Q)
  pub init_containers : List (Container Q)
  pub overhead : Assoc Q
  pub affinity : Option Affinity
  pub topology_spread_constraints : ℕ  -- their number
  pub node_selector : Assoc String
  pub tolerations : List Toleration

pub record Node (Q : Type 0) : Type 0 where
  pub name : String
  pub labels : Option (Assoc String)
  pub annotations : Assoc String
  pub created_at : ℕ
  pub taints : List Taint
  pub unschedulable : Bool
  pub allocatable : Assoc Q
  pub conditions : List NodeCondition
