-- ===== src/Prelude/Decimal.antt =====
-- `%d`, and the number that a decimal text stands for.
use Prim.Native.Nat.{ℕ, zero, suc, ◌+◌, ◌-◌, ◌*◌, ◌/◌, ◌%◌, ◌<◌}
use Prim.Native.Char.{Char, code}
use Prim.Native.String.{String}
use Prim.Native.String.append.{nil, cons}
use mathlib.Core.Path.{◌≡◌, ◌∙◌, refl, sym, ap}
use mathlib.Core.Logic.{inl, inr}
use native.Mathlib.Omega.{arith}
use kubto.Prelude.Tests.{if◌then◌else◌, Bool-cases, ◌==◌ as nat_eq}
use kubto.Prelude.Texts.{◌<>◌}

digit : ℕ → String
digit n =
    if nat_eq n 0
    then "0"
    else if nat_eq n 1
    then "1"
    else if nat_eq n 2
    then "2"
    else if nat_eq n 3
    then "3"
    else if nat_eq n 4
    then "4"
    else if nat_eq n 5
    then "5"
    else if nat_eq n 6
    then "6"
    else if nat_eq n 7
    then "7"
    else if nat_eq n 8
    then "8"
    else "9"

decimal_from : ℕ → ℕ → String → String
decimal_from zero n acc = acc
decimal_from (suc fuel) n acc =
    let text = digit (n % 10) <> acc in
    let rest = decimal_from fuel (n / 10) text in if nat_eq (n / 10) 0 then text else rest

-- `%d` of a number that is not negative. A number has at most as many digits as it has units,
-- and one.
unfoldable pub decimal : ℕ → String
unfolding digit decimal_from
decimal n = decimal_from (suc n) n ""

-- Each character counts as a digit, behind the number so far.
read_digits : ℕ → String → ℕ
read_digits n String.[] = n
read_digits n (String.◌∷◌ c s) = read_digits (n * 10 + (code c - 48)) s

unfoldable pub read_decimal : String → ℕ
unfolding read_digits
read_decimal s = read_digits 0 s

read_char :
    (c : Char) (n : ℕ) (s : String)
    → read_digits n (String.◌∷◌ c String.[] <> s) ≡ read_digits (n * 10 + (code c - 48)) s
unfolding read_digits
read_char c n s = rw (cons c String.[] s, nil s) refl

-- A digit in front of a text is the next digit of the number.
read_digit :
    (d n : ℕ) (s : String) → d < 10 → read_digits n (digit d <> s) ≡ read_digits (n * 10 + d) s
unfolding digit
read_digit zero n s h = read_char "0" n s
read_digit (suc zero) n s h = read_char "1" n s
read_digit (suc (suc zero)) n s h = read_char "2" n s
read_digit (suc (suc (suc zero))) n s h = read_char "3" n s
read_digit (suc (suc (suc (suc zero)))) n s h = read_char "4" n s
read_digit (suc (suc (suc (suc (suc zero))))) n s h = read_char "5" n s
read_digit (suc (suc (suc (suc (suc (suc zero)))))) n s h = read_char "6" n s
read_digit (suc (suc (suc (suc (suc (suc (suc zero))))))) n s h = read_char "7" n s
read_digit (suc (suc (suc (suc (suc (suc (suc (suc zero)))))))) n s h = read_char "8" n s
read_digit (suc (suc (suc (suc (suc (suc (suc (suc (suc zero))))))))) n s h = read_char "9" n s
read_digit (suc (suc (suc (suc (suc (suc (suc (suc (suc (suc d)))))))))) n s h =
    absurd (omega arith)

read-decimal_from :
    (fuel n : ℕ) (s : String) → n < fuel → read_digits 0 (decimal_from fuel n s) ≡ read_digits n s
unfolding decimal_from
read-decimal_from zero n s h = absurd (omega arith)
read-decimal_from (suc fuel) n s h =
    let whole : (n / 10 * 10 + n % 10 ≡ n) = omega arith in
    let last = read_digit (n % 10) (n / 10) s (omega arith) ∙ ap (λ k. read_digits k s) whole in
    elim (Bool-cases (nat_eq (n / 10) 0)) [
      | inl one ↦
          let zero_head : (n / 10 ≡ 0) = ground arith in
          rw one (ap (λ k. read_digits k (digit (n % 10) <> s)) (sym zero_head) ∙ last)
      | inr more ↦
          rw more (read-decimal_from fuel (n / 10) (digit (n % 10) <> s) (ground arith) ∙ last)
    ]

-- The decimal text of a number reads as that number.
pub read-decimal : (n : ℕ) → read_decimal (decimal n) ≡ n
unfolding decimal read_decimal read_digits
read-decimal n = read-decimal_from (suc n) n "" (omega arith)

pub decimal-injective : (m n : ℕ) → decimal m ≡ decimal n → m ≡ n
decimal-injective m n e = sym (read-decimal m) ∙ (ap read_decimal e ∙ read-decimal n)

-- A text that starts with the other, without that start.
drop_start : String → String → String
drop_start String.[] s = s
drop_start (String.◌∷◌ c t) String.[] = String.[]
drop_start (String.◌∷◌ c t) (String.◌∷◌ d s) = drop_start t s

drop_start-append : (t s : String) → drop_start t (t <> s) ≡ s
unfolding drop_start
drop_start-append String.[] s = nil s
drop_start-append (String.◌∷◌ c t) s = rw (cons c t s) (drop_start-append t s)

pub append-left_injective : (t r s : String) → t <> r ≡ t <> s → r ≡ s
append-left_injective t r s e =
    sym (drop_start-append t r) ∙ (ap (drop_start t) e ∙ drop_start-append t s)
