-- ===== src/Provisioner/Kind/Api.antt =====
-- The calls of `docker` and of the Kubernetes API that
-- autoscaler/pkg/provisioner/node_provisioner.go makes. An environment answers each call, as a
-- function of the calls before it; the history of calls, the newest first, records each answer.
use kubto.Prelude.{ℕ, Bool, Option, List, String}
use kubto.Kube.{Node}

-- The step of `CreateNode` that failed. The code returns the node's name with the last error.
pub data KindError : Type 0 where
  no_join_command no_container no_join no_registration : KindError
  not_ready : String → KindError

pub data Result (A : Type 0) : Type 0 where
  ok : A → Result A
  err : KindError → Result A

module _ (Q : Type 0) where
  -- `none` and `false` stand for an error.
  pub data KindCall : Type 0 where
    ran_docker : List String → Bool → KindCall
    listed_nodes : Option (List (Node Q)) → KindCall
    got_node : String → Option (Node Q) → KindCall
    updated_node : Node Q → Bool → KindCall

  abbrev pub KindHistory : Type 0
  KindHistory = List KindCall

  pub record KindEnv : Type 0 where
    pub docker : KindHistory → List String → String × Bool  -- the output, and whether it succeeded
    pub list_nodes : KindHistory → Option (List (Node Q))
    pub get_node : KindHistory → String → Option (Node Q)
    pub update_node : KindHistory → Node Q → Bool
    pub is_cancelled : KindHistory → Bool  -- the context of a wait has ended
    pub unix_nano : KindHistory → ℕ  -- time.Now().UnixNano()
    pub timestamp : KindHistory → String  -- time.Now() as RFC 3339

-- A step of the code that may fail, with the history after it.
abbrev pub M : Type 0 → Type 0 → Type 0
M Q A = KindHistory Q → Result A × KindHistory Q

abbrev pub pure : {Q A : Type 0} → A → M Q A
pure a h = (ok a, h)

-- What follows a step: a failure ends the function.
abbrev pub continue :
    {Q A B : Type 0} → (A → M Q B) → Result A × KindHistory Q → Result B × KindHistory Q
continue f (ok a, h) = f a h
continue f (err e, h) = (err e, h)

infixl 5 ◌>>=◌ ◌>>◌
abbrev pub ◌>>=◌ : {Q A B : Type 0} → M Q A → (A → M Q B) → M Q B
◌>>=◌ m f h = continue f (m h)

abbrev pub ◌>>◌ : {Q B : Type 0} → M Q (Unit {0}) → M Q B → M Q B
m >> k = m >>= λ _. k
