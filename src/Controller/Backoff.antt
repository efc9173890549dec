-- ===== src/Controller/Backoff.antt =====
-- The backoff after failures of the provisioner, and the wait that it causes.
use native.Mathlib.Nat.{pow-le-pow_right}
use kubto.Prelude.{
  IsNat64, ℕ, ◌+◌, ◌-◌, ◌*◌, ◌^◌, ◌≤◌, ◌<◌, ◌≡◌, min, arith, ltb, add64, mul64, neg64, lt64,
  sub_time, add_time,
}
use kubto.Controller.Scaling.{AutoscalerController, Attempts, shl64_one, backoff, settle}

-- After `f` failures, with `f` from 1 to 61, the backoff is 5 * 2 ^ (f - 1) seconds, and 60 at
-- most.
backoff_lem : (f : ℕ) → 1 ≤ f → f ≤ 61 → backoff f ≡ min (5 * 2 ^ (f - 1)) 60 * 1_000_000_000
unfolding backoff shl64_one mul64 lt64
backoff_lem f lo hi =
    ground (arith, pow-le-pow_right {n = 2} (omega arith) {i = f - 1} {j = 60} (omega arith))

-- From 65 failures on the shift gives 0, and there is no backoff.
pub backoff_overflows : (f : ℕ) → 65 ≤ f → backoff f ≡ 0
unfolding backoff shl64_one mul64 lt64
backoff_overflows f h = ground arith

-- The cooldown test after a failed scale-up: for a cooldown and a backoff below 2 ^ 62 nanoseconds
-- it blocks the handler, up to 2 ^ 62 nanoseconds later, until the backoff has passed.
backoff_blocks :
    (cooldown wait later t : ℕ)
    → cooldown < 2 ^ 62
    → wait < 2 ^ 62
    → cooldown ≤ later
    → later ≤ t
    → t - later < 2 ^ 62
    → lt64 (sub_time t (add_time later (add64 (neg64 cooldown) wait))) cooldown
      ≡ ltb t (later + wait)
unfolding add64 neg64 add_time sub_time lt64
backoff_blocks cooldown wait later t hc hw hl ht hd = ground arith

module _ {Q W : Type 0} (a : Attempts W) (c : AutoscalerController Q) where
  settle_failed :
      (later : ℕ)
      → a.success_count ≡ 0
      → 0 < a.failures
      → IsNat64 a.failures
      → ((settle later a c).last_scale_up
          ≡ add_time later (add64 (neg64 c.scale_up_cooldown) (backoff a.failures)))
        × ((settle later a c).scale_up_cooldown ≡ c.scale_up_cooldown)
  unfolding settle lt64
  settle_failed later none_made some_failed fits = ground arith

  -- After a scale-up in which no node was created, and which left 1 to 61 failures, the handler's
  -- cooldown test holds exactly until 5 * 2 ^ (failures - 1) seconds, and 60 at most, have passed
  -- since its end. The cooldown is below 2 ^ 62 nanoseconds, and so is the time since then.
  pub settle_blocks :
      (later t : ℕ)
      → a.success_count ≡ 0
      → 1 ≤ a.failures
      → a.failures ≤ 61
      → c.scale_up_cooldown < 2 ^ 62
      → c.scale_up_cooldown ≤ later
      → later ≤ t
      → t - later < 2 ^ 62
      → let d = settle later a c in
        lt64 (sub_time t d.last_scale_up) d.scale_up_cooldown
        ≡ ltb t (later + min (5 * 2 ^ (a.failures - 1)) 60 * 1_000_000_000)
  settle_blocks later t none_made lo hi hc hl ht hd =
      let (at, kept) = settle_failed later none_made (omega arith) (omega arith) in
      let wait = backoff_lem a.failures lo hi in
      let few : (backoff a.failures < 2 ^ 62) = rw wait (ground arith) in
      rw (at, kept, ← wait)
        (backoff_blocks c.scale_up_cooldown (backoff a.failures) later t hc few hl ht hd)
