-- ===== src/Tests/Instances.antt =====
-- Concrete instances of what the development takes as parameters: amounts are numbers, floats are
-- fractions, and the sort is an insertion sort.
use mathlib.Core.List.{Permᴰ}
use mathlib.Core.List.Permᴰ
use kubto.Prelude.{
  ℕ, ◌+◌, ◌*◌, refl, Bool, Option, none, some, List, [], ◌∷◌, lookup, ltb, leb, ◌==◌, if◌then◌else◌,
  Bool-cases, inl, inr,
}
use kubto.Platform.{Quantity, Float64, Denotes}
use kubto.Estimator.Estimate.{Sorter}
use kubto.Estimator.Estimate.Guarantees.{IsSorter}

abbrev or_zero : Option ℕ → ℕ
or_zero none = 0
or_zero (some n) = n

instance abbrev pub natural : Quantity ℕ
natural = record {
  empty = 0;
  new_milli_quantity = λ n. n;
  new_quantity = λ n. n;
  add = λ a b. a + b;
  less = ltb;
  is_zero = λ a. a == 0;
  milli_value = λ a. a;
  value = λ a. a;
  cpu_of = λ list. or_zero (lookup "cpu" list);
  memory_of = λ list. or_zero (lookup "memory" list);
}

abbrev pub itself : ℕ → ℕ
itself n = n

pub itself-Denotes : Denotes itself
itself-Denotes = record {
  amount-empty = refl;
  amount-new_milli_quantity = refl;
  amount-new_quantity = refl;
  amount-add = λ a b. refl;
  less-ltb = λ a b. refl;
}

-- A numerator and a denominator.
abbrev pub Fraction : Type 0
Fraction = ℕ × ℕ

abbrev pub fractions : Float64 Fraction
fractions = record {
  of_int64 = λ n. (n, 1);
  div = λ a b. (a.0 * b.1, a.1 * b.0);
  mul = λ a b. (a.0 * b.0, a.1 * b.1);
  gt = λ a b. ltb (b.0 * a.1) (a.0 * b.1);
  ge = λ a b. leb (b.0 * a.1) (a.0 * b.1);
}

module _ {A : Type 0} (less : A → A → Bool) where
  unfoldable pub insert_by : A → List A → List A
  insert_by x [] = x ∷ []
  insert_by x (y ∷ ys) = let rest = insert_by x ys in if less y x then y ∷ rest else x ∷ y ∷ ys

  unfoldable pub insertion_sort : List A → List A
  unfolding insert_by
  insertion_sort [] = []
  insertion_sort (x ∷ xs) = insert_by x (insertion_sort xs)

  insert_by-Perm : (x : A) (ys : List A) → Permᴰ (insert_by x ys) (x ∷ ys)
  unfolding insert_by
  insert_by-Perm x [] = Permᴰ.refl _
  insert_by-Perm x (y ∷ ys) = elim (Bool-cases (less y x)) [
    | inl e ↦ rw e (Permᴰ.trans (Permᴰ.cons refl (insert_by-Perm x ys)) (Permᴰ.swap refl refl))
    | inr e ↦ rw e (Permᴰ.refl _)
  ]

  insertion_sort-Perm : (xs : List A) → Permᴰ (insertion_sort xs) xs
  unfolding insertion_sort
  insertion_sort-Perm [] = Permᴰ.nil
  insertion_sort-Perm (x ∷ xs) =
      Permᴰ.trans (insert_by-Perm x (insertion_sort xs)) (Permᴰ.cons refl (insertion_sort-Perm xs))

abbrev pub sorter : Sorter ℕ Fraction
sorter less l = insertion_sort less l

pub sorter-IsSorter : IsSorter sorter
sorter-IsSorter = record { permutes = λ less l. insertion_sort-Perm less l }
