-- ===== src/Provisioner/Counts.antt =====
-- How many nodes the fake provisioner creates.
use kubto.Prelude.{
  ℕ, zero, suc, ◌+◌, ◌%◌, ◌^◌, ◌<◌, add64, ◌≡◌, ◌==◌, ltb, leb, min, max, ◌&&◌, ◌||◌, length-snoc,
  arith, if◌then◌else◌, none, Bool-cases, inl, inr, refl,
}
use kubto.Provisioner.Fake.{
  sleep, fake_name, is_set, FakeNodeProvisioner, begin_create, end_create, create_node, creates,
  create_count, create_attempts,
}

-- Where no context ends, the two halves of the call follow each other.
create_steady :
    (f : FakeNodeProvisioner)
    → create_node none f ≡ end_create (begin_create f).0 (begin_create f).1
unfolding create_node sleep
create_steady f = elim (Bool-cases (ltb 0 f.create_delay)) [
  | inl delayed ↦ rw (create_node, delayed) refl
  | inr at_once ↦ rw (create_node, at_once) refl
]

create-keeps :
    (f : FakeNodeProvisioner)
    → ((create_node none f).1.fail_after ≡ f.fail_after)
      × ((create_node none f).1.create_error ≡ f.create_error)
      × ((create_node none f).1.create_attempts ≡ add64 f.create_attempts 1)
unfolding begin_create end_create
create-keeps f = rw (create_steady f) (ground arith)

create-count :
    (f : FakeNodeProvisioner)
    → create_count (create_node none f).1 ≡ (
        if (ltb 0 f.fail_after && leb f.fail_after (create_count f))
          || (is_set f.create_error && (f.fail_after == 0))
        then create_count f
        else create_count f + 1)
unfolding create_count begin_create end_create
create-count f =
    rw (create_steady f)
      (ground (arith, length-snoc f.created_nodes (fake_name (add64 f.counter 1))))

attempts-lt : (f : FakeNodeProvisioner) → create_attempts (create_node none f).1 < 2 ^ 64
unfolding create_attempts add64
attempts-lt f = omega (arith, create-keeps f)

-- After `n` calls of `CreateNode` in a row there are `n` more nodes, unless an error is injected;
-- with `FailAfter` set there are never more than it allows, and with only an error set there are no
-- more. Each call counts as an attempt, modulo 2 ^ 64.
creates-count :
    (n : ℕ) (f : FakeNodeProvisioner)
    → create_attempts f < 2 ^ 64
    → (create_count (creates n f) ≡ (
        if ltb 0 f.fail_after
        then max (create_count f) (min (create_count f + n) f.fail_after)
        else if is_set f.create_error
        then create_count f
        else create_count f + n))
      × (create_attempts (creates n f) ≡ (create_attempts f + n) % 2 ^ 64)
unfolding creates create_attempts add64
creates-count zero f ranged = ground arith
creates-count (suc n) f ranged =
    ground (
      arith,
      creates-count n (create_node none f).1 (attempts-lt f),
      create-keeps f,
      create-count f,
    )
