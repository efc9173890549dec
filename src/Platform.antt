-- ===== src/Platform.antt =====
-- What the autoscaler takes from packages outside the repository, as interfaces:
-- `resource.Quantity` of k8s.io/apimachinery and the processor's `float64`.
use kubto.Prelude.{ℕ, ◌+◌, ◌≡◌, Bool, Assoc, ltb}

-- The methods of `resource.Quantity` that the code calls. Integers are 64-bit patterns.
pub record Quantity (Q : Type 0) : Type 0 where
  pub empty : Q  -- resource.Quantity{}
  pub new_milli_quantity : ℕ → Q
  pub new_quantity : ℕ → Q
  pub add : Q → Q → Q
  pub less : Q → Q → Bool  -- a.Cmp(b) < 0
  pub is_zero : Q → Bool
  pub milli_value : Q → ℕ
  pub value : Q → ℕ
  pub cpu_of : Assoc Q → Q  -- ResourceList.Cpu()
  pub memory_of : Assoc Q → Q  -- ResourceList.Memory()

-- A quantity denotes a number: `Add` adds what the two denote, `Cmp` compares it, and
-- the empty quantity and the new ones of 0 denote 0. Here for quantities that are not negative.
pub record Denotes {Q : Type 0} ⦃q : Quantity Q⦄ (amount : Q → ℕ) : Type 0 where
  pub amount-empty : amount q.empty ≡ 0
  pub amount-new_milli_quantity : amount (q.new_milli_quantity 0) ≡ 0
  pub amount-new_quantity : amount (q.new_quantity 0) ≡ 0
  pub amount-add : (a b : Q) → amount (q.add a b) ≡ amount a + amount b
  pub less-ltb : (a b : Q) → q.less a b ≡ ltb (amount a) (amount b)

-- The float64 operations that the code uses. `of_int64` is the conversion of a 64-bit pattern.
pub record Float64 (F : Type 0) : Type 0 where
  pub of_int64 : ℕ → F
  pub div : F → F → F
  pub mul : F → F → F
  pub gt : F → F → Bool
  pub ge : F → F → Bool
