-- ===== src/Prelude/Texts.antt =====
-- Texts, and Go's `map[string]V` as an association list in which a write replaces.
use Prim.Native.Nat.{ℕ}
use Prim.Native.Char.{Char, code}
use Prim.Native.String.{String, ◌++◌}
use Prim.Native.String.append.{nil, cons}
use text.Mathlib.Text.{◌==◌, starts_with}
use text.Mathlib.TextEquality.{eq_iff, starts_with_iff}
use mathlib.Core.Path.{◌≡◌, ◌∙◌, refl, sym, ap, subst}
use mathlib.Core.Logic.{◌↔◌, inl, inr}
use mathlib.Core.Bool.{Bool, true, ◌&&◌, ◌||◌}
use mathlib.Core.List.{List, [], ◌∷◌}
use mathlib.Core.Option.{Option, none, some}
use native.Mathlib.Omega.{arith}
use kubto.Prelude.Tests.{leb, if◌then◌else◌, Bool-cases, ◌==◌ as nat_eq}

-- `==` on strings.
abbrev pub str_eq : String → String → Bool
str_eq = ◌==◌

pub str_eq_iff : (s t : String) → (str_eq s t ≡ true → s ≡ t) × (s ≡ t → str_eq s t ≡ true)
str_eq_iff s t = eq_iff s t

-- `strings.Contains(s, sub)`.
unfoldable pub contains : String → String → Bool
contains String.[] sub = starts_with String.[] sub
contains (String.◌∷◌ c s) sub = starts_with (String.◌∷◌ c s) sub || contains s sub

-- `sub` stands somewhere in `s`.
abbrev pub Occurs : String → String → Type 0
Occurs sub s = (before : String) × (after : String) × (s ≡ before ++ (sub ++ after))

contains-Occurs : (s sub : String) → contains s sub ≡ true → Occurs sub s
unfolding contains
contains-Occurs String.[] sub e =
    let (u, joined) = (starts_with_iff String.[] sub).0 e in
    ("", u, sym joined ∙ sym (nil (sub ++ u)))
contains-Occurs (String.◌∷◌ c s) sub e = elim (Bool-cases (starts_with (String.◌∷◌ c s) sub)) [
  | inl h ↦
      let (u, joined) = (starts_with_iff (String.◌∷◌ c s) sub).0 h in
      ("", u, sym joined ∙ sym (nil (sub ++ u)))
  | inr h ↦
      let (b, u, split) = contains-Occurs s sub (rw h at e) in
      (String.◌∷◌ c b, u, ap (String.◌∷◌ c) split ∙ sym (cons c b (sub ++ u)))
]

contains_at_head : (s sub u : String) → s ≡ sub ++ u → contains s sub ≡ true
unfolding contains
contains_at_head String.[] sub u e = (starts_with_iff String.[] sub).1 (u, sym e)
contains_at_head (String.◌∷◌ c s) sub u e =
    rw ((starts_with_iff (String.◌∷◌ c s) sub).1 (u, sym e)) refl

contains_later :
    (c : Char) (s sub : String) → contains s sub ≡ true → contains (String.◌∷◌ c s) sub ≡ true
unfolding contains
contains_later c s sub e = rw e (ground arith)

Occurs-contains : (b s sub u : String) → s ≡ b ++ (sub ++ u) → contains s sub ≡ true
Occurs-contains String.[] s sub u e = contains_at_head s sub u (e ∙ nil (sub ++ u))
Occurs-contains (String.◌∷◌ c b) s sub u e =
    subst (λ t. contains t sub ≡ true) (sym (e ∙ cons c b (sub ++ u)))
      (contains_later c (b ++ (sub ++ u)) sub (Occurs-contains b (b ++ (sub ++ u)) sub u refl))

pub contains_iff : (s sub : String) → (contains s sub ≡ true) ↔ Occurs sub s
contains_iff s sub =
    (contains-Occurs s sub, λ occurs. let (b, u, split) = occurs in Occurs-contains b s sub u split)

-- `s + t` on strings.
infixr 65 ◌<>◌
abbrev pub ◌<>◌ : String → String → String
◌<>◌ = ◌++◌

-- `strings.HasSuffix(s, suffix)`.
unfoldable pub has_suffix : String → String → Bool
has_suffix String.[] suffix = str_eq String.[] suffix
has_suffix (String.◌∷◌ c s) suffix = str_eq (String.◌∷◌ c s) suffix || has_suffix s suffix

-- The characters that `strings.TrimSpace` removes, by their code points.
is_space : ℕ → Bool
is_space c =
    (leb 9 c && leb c 13)
    || nat_eq c 32
    || nat_eq c 133
    || nat_eq c 160
    || nat_eq c 5760
    || (leb 8192 c && leb c 8202)
    || nat_eq c 8232
    || nat_eq c 8233
    || nat_eq c 8239
    || nat_eq c 8287
    || nat_eq c 12288

trim_left : String → String
unfolding is_space
trim_left String.[] = String.[]
trim_left (String.◌∷◌ c s) =
    let rest = trim_left s in if is_space (code c) then rest else String.◌∷◌ c s

trim_right : String → String
unfolding is_space
trim_right String.[] = String.[]
trim_right (String.◌∷◌ c s) =
    let rest = trim_right s in
    if is_space (code c) && str_eq rest String.[] then String.[] else String.◌∷◌ c rest

unfoldable pub trim_space : String → String
unfolding trim_left trim_right
trim_space s = trim_right (trim_left s)

abbrev pub Assoc {ℓ} : Type ℓ → Type ℓ
Assoc V = List (String × V)

module _ {ℓ} {V : Type ℓ} where
  -- `v, ok := m[k]`.
  abbrev pub lookup : String → Assoc V → Option V
  lookup k [] = none
  lookup k ((j, v) ∷ m) = if str_eq j k then some v else lookup k m

  -- `m[k] = v`.
  abbrev pub insert : String → V → Assoc V → Assoc V
  insert k v [] = (k, v) ∷ []
  insert k v ((j, w) ∷ m) = if str_eq j k then (k, v) ∷ m else (j, w) ∷ insert k v m

  pub lookup-insert :
      (k j : String) (v : V) (m : Assoc V)
      → lookup j (insert k v m) ≡ (if str_eq k j then some v else lookup j m)
  lookup-insert k j v [] = refl
  lookup-insert k j v ((i, w) ∷ m) =
      ground (arith, eq_iff k j, eq_iff i k, eq_iff i j, lookup-insert k j v m)
