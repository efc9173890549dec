-- ===== src/Provisioner/Fake.antt =====
-- autoscaler/pkg/provisioner/fake_provisioner.go. `FailAfter` and `CreateDelay` are not negative.
pub mod Overlap
use kubto.Prelude.{
  ℕ, ◌==◌, ltb, leb, Bool, true, false, ◌&&◌, Option, none, some, List, [], ◌∷◌, ◌++◌, String, ◌<>◌,
  decimal, length, if◌then◌else◌, suc, zero, add64, neg64, is_neg,
}
use kubto.Provisioner.{Creation, created, creation_failed, NodeProvisioner}

pub record FakeNodeProvisioner : Type 0 where
  pub created_nodes : List String
  pub cordoned_nodes : List String
  pub terminated_nodes : List String
  pub create_error : Option String
  pub fail_after : ℕ
  pub create_delay : ℕ
  pub create_attempts : ℕ
  pub cordon_error : Option String
  pub terminate_error : Option String
  pub counter : ℕ

unfoldable pub new_fake_provisioner : FakeNodeProvisioner
new_fake_provisioner = record {
  created_nodes = [];
  cordoned_nodes = [];
  terminated_nodes = [];
  create_error = none;
  fail_after = 0;
  create_delay = 0;
  create_attempts = 0;
  cordon_error = none;
  terminate_error = none;
  counter = 0;
}

abbrev pub is_set : Option String → Bool
is_set none = false
is_set (some _) = true

abbrev error_or : String → Option String → String
error_or default none = default
error_or default (some e) = e

-- What `CreateNode` reads under the lock before it sleeps.
pub record Started : Type 0 where
  pub delay : ℕ
  pub fail_limit : ℕ
  pub create_err : Option String
  pub already : ℕ

unfoldable pub begin_create : FakeNodeProvisioner → Started × FakeNodeProvisioner
begin_create f = (
  record {
    delay = f.create_delay;
    fail_limit = f.fail_after;
    create_err = f.create_error;
    already = length f.created_nodes;
  },
  record f { create_attempts = add64 f.create_attempts 1 },
)

-- `%d` of an `int64`.
unfoldable pub fake_name : ℕ → String
fake_name n = if is_neg n then "fake-node--" <> decimal (neg64 n) else "fake-node-" <> decimal n

-- What `CreateNode` does under the lock after its sleep.
unfoldable pub end_create : Started → FakeNodeProvisioner → Creation × FakeNodeProvisioner
unfolding fake_name
end_create c f =
    let name = fake_name (add64 f.counter 1) in
    if ltb 0 c.fail_limit && leb c.fail_limit c.already
    then (
      creation_failed
          (error_or ("fake provisioner FailAfter=" <> decimal c.fail_limit) c.create_err),
      f,
    )
    else if is_set c.create_err && (c.fail_limit == 0)
    then (creation_failed (error_or "" c.create_err), f)
    else (
      created name,
      record f { counter = add64 f.counter 1; created_nodes = f.created_nodes ++ name ∷ [] },
    )

-- The sleep ends with the context's error if there is a delay and the context ends during it.
unfoldable pub sleep : Option String → Started → Option String
sleep ended c = if ltb 0 c.delay then ended else none

-- The whole call. `ended` is the error of the context if it ends before the delay has passed.
unfoldable pub create_node : Option String → FakeNodeProvisioner → Creation × FakeNodeProvisioner
unfolding begin_create end_create sleep
create_node ended f =
    let (c, tried) = begin_create f in
    elim (sleep ended c) [ none ↦ end_create c tried | some e ↦ (creation_failed e, tried) ]

unfoldable pub cordon_node : FakeNodeProvisioner → String → Bool × FakeNodeProvisioner
cordon_node f name =
    if is_set f.cordon_error
    then (false, f)
    else (true, record f { cordoned_nodes = f.cordoned_nodes ++ name ∷ [] })

unfoldable pub terminate_node : FakeNodeProvisioner → String → Bool × FakeNodeProvisioner
terminate_node f name =
    if is_set f.terminate_error
    then (false, f)
    else (true, record f { terminated_nodes = f.terminated_nodes ++ name ∷ [] })

unfoldable pub create_count : FakeNodeProvisioner → ℕ
create_count f = length f.created_nodes

unfoldable pub create_attempts : FakeNodeProvisioner → ℕ
create_attempts f = f.create_attempts

unfoldable cordon_count : FakeNodeProvisioner → ℕ
cordon_count f = length f.cordoned_nodes

unfoldable terminate_count : FakeNodeProvisioner → ℕ
terminate_count f = length f.terminated_nodes

unfoldable pub reset : FakeNodeProvisioner → FakeNodeProvisioner
reset f = record f {
  created_nodes = [];
  cordoned_nodes = [];
  terminated_nodes = [];
  create_attempts = 0;
}

-- `ends` tells of each call of `CreateNode` whether the context ends during its delay.
unfoldable pub fake_provisioner :
    (FakeNodeProvisioner → Option String) → NodeProvisioner FakeNodeProvisioner
fake_provisioner ends = record {
  create_node = λ f. create_node (ends f) f;
  cordon_node = cordon_node;
  terminate_node = terminate_node;
}

-- `n` calls of `CreateNode` in a row, none of which is cut short.
unfoldable pub creates : ℕ → FakeNodeProvisioner → FakeNodeProvisioner
creates zero f = f
creates (suc n) f = creates n (create_node none f).1
