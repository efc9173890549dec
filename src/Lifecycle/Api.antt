-- ===== src/Lifecycle/Api.antt =====
-- The calls that autoscaler/pkg/lifecycle makes of the Kubernetes API and of the `docker` command.
-- An environment answers each call, as a function of the calls before it; the history of calls,
-- the newest first, records each answer.
use kubto.Prelude.{Bool, Option, List, String}
use kubto.Kube.{Pod, Node}

-- The answers to an eviction request that the code tells apart.
pub data EvictAnswer : Type 0 where
  evict_ok evict_not_found evict_too_many_requests evict_failed : EvictAnswer

module _ (Q : Type 0) where
  -- `none` and `false` stand for an error.
  pub data Call : Type 0 where
    got_node : String → Option (Node Q) → Call
    listed_pods : String → Option (List (Pod Q)) → Call
    updated_node : Node Q → Bool → Call
    evicted : String → String → EvictAnswer → Call
    deleted_node : String → Bool → Call
    ran_hook : String → Bool → Call
    removed_container : String → Bool → Call

  abbrev pub History : Type 0
  History = List Call

  pub record Env : Type 0 where
    pub get_node : History → String → Option (Node Q)
    pub list_pods : History → String → Option (List (Pod Q))  -- the pods of one node
    pub update_node : History → Node Q → Bool
    pub evict : History → String → String → EvictAnswer
    pub delete_node : History → String → Bool
    pub cleanup_hook : Option (History → String → Bool)
    pub remove_container : History → String → Bool
    pub is_cancelled : History → Bool  -- the context of a wait has ended

-- A step of the code: what it returns, and the history after it.
abbrev pub Action : Type 0 → Type 0 → Type 0
Action Q A = History Q → A × History Q
