-- ===== src/Monitor/Arrays.antt =====
-- Slices as Go has them: a slice is the start of an array that other slices may share, and a write
-- through one is seen by all. Every slice here starts at the array's first element.
use kubto.Prelude.{
  ℕ, zero, suc, ◌+◌, ◌≤◌, ◌<◌, ◌≡◌, ◌≢◌, refl, ap, ltb, ◌==◌, List, [], ◌∷◌, ◌++◌, map, length,
  modify, length-modify, ◌⊎◌, length-append, arith, if◌then◌else◌, Bool-cases, inl, inr,
}

pub record Slice : Type 0 where
  pub array : ℕ
  pub len : ℕ

-- The arrays by their addresses; the addresses from `next` on are free. The length of an array is
-- the capacity of the slices into it.
pub record Arrays {ℓ} (A : Type ℓ) : Type ℓ where
  pub cells : ℕ → List A
  pub next : ℕ

module _ {ℓ} {A : Type ℓ} where
  abbrev pub take : ℕ → List A → List A
  take zero xs = []
  take (suc n) [] = []
  take (suc n) (x ∷ xs) = x ∷ take n xs

  -- What a slice shows.
  abbrev pub contents : Arrays A → Slice → List A
  contents h s = take s.len (h.cells s.array)

  abbrev pub store : ℕ → List A → Arrays A → Arrays A
  store k xs h = record h { cells = λ j. if j == k then xs else h.cells j }

  -- `make` and `copy`: a new array.
  unfoldable pub copy_slice : Slice → Arrays A → Slice × Arrays A
  copy_slice s h =
      let xs = contents h s in
      (record { array = h.next; len = length xs }, record (store h.next xs h) { next = h.next + 1 })

  -- `append`: into the array if there is room, else into a new one, for which the runtime chooses
  -- how much room it has; `spare` is what that room holds.
  unfoldable pub append_one : List A → A → Slice → Arrays A → Slice × Arrays A
  append_one spare x s h =
      let xs = h.cells s.array in
      if ltb s.len (length xs)
      then (record s { len = suc s.len }, store s.array (modify xs s.len (λ _. x)) h)
      else (
        record { array = h.next; len = suc s.len },
        record (store h.next (contents h s ++ x ∷ spare) h) { next = h.next + 1 },
      )

  -- A write to each of the first `n` elements.
  abbrev pub map_first : ℕ → (A → A) → List A → List A
  map_first zero f xs = xs
  map_first (suc n) f [] = []
  map_first (suc n) f (x ∷ xs) = f x ∷ map_first n f xs

  pub take-map_first :
      (n : ℕ) (f : A → A) (xs : List A) → take n (map_first n f xs) ≡ map f (take n xs)
  take-map_first zero f xs = refl
  take-map_first (suc n) f [] = refl
  take-map_first (suc n) f (x ∷ xs) = ap (λ t. f x ∷ t) (take-map_first n f xs)

  pub length-map_first : (n : ℕ) (f : A → A) (xs : List A) → length (map_first n f xs) ≡ length xs
  length-map_first zero f xs = refl
  length-map_first (suc n) f [] = refl
  length-map_first (suc n) f (x ∷ xs) = ap suc (length-map_first n f xs)

  pub take-modify :
      (n i : ℕ) (f : A → A) (xs : List A) → take n (modify xs i f) ≡ modify (take n xs) i f
  take-modify zero i f xs = refl
  take-modify (suc n) i f [] = refl
  take-modify (suc n) zero f (x ∷ xs) = refl
  take-modify (suc n) (suc i) f (x ∷ xs) = ap (λ t. x ∷ t) (take-modify n i f xs)

  -- A write right behind a slice makes it longer.
  pub take-append :
      (n : ℕ) (x : A) (xs : List A)
      → n < length xs
      → take (suc n) (modify xs n (λ _. x)) ≡ take n xs ++ x ∷ []
  take-append zero x [] h = absurd (omega arith)
  take-append zero x (y ∷ xs) h = refl
  take-append (suc n) x [] h = absurd (omega arith)
  take-append (suc n) x (y ∷ xs) h = ap (λ t. y ∷ t) (take-append n x xs (omega arith))

  take_snoc :
      (xs : List A) (x : A) (ys : List A) (n : ℕ)
      → length xs ≡ n
      → take (suc n) (xs ++ x ∷ ys) ≡ xs ++ x ∷ []
  take_snoc [] x ys zero e = refl
  take_snoc [] x ys (suc n) e = absurd (omega arith)
  take_snoc (y ∷ xs) x ys zero e = absurd (omega arith)
  take_snoc (y ∷ xs) x ys (suc n) e = ap (λ t. y ∷ t) (take_snoc xs x ys n (omega arith))

  take-length : (xs ys : List A) → take (length xs) (xs ++ ys) ≡ xs
  take-length [] ys = refl
  take-length (x ∷ xs) ys = ap (λ t. x ∷ t) (take-length xs ys)

  pub take_all : (xs : List A) → take (length xs) xs ≡ xs
  take_all [] = refl
  take_all (x ∷ xs) = ap (λ t. x ∷ t) (take_all xs)

  length-take : (n : ℕ) (xs : List A) → n ≤ length xs → length (take n xs) ≡ n
  length-take zero xs h = refl
  length-take (suc n) [] h = absurd (omega arith)
  length-take (suc n) (x ∷ xs) h = ap suc (length-take n xs (omega arith))

  -- A write to one array leaves the others.
  pub store_other :
      (k j : ℕ) (xs : List A) (h : Arrays A) → j ≢ k → (store k xs h).cells j ≡ h.cells j
  store_other k j xs h d = ground arith

  pub store_same : (k : ℕ) (xs : List A) (h : Arrays A) → (store k xs h).cells k ≡ xs
  store_same k xs h = ground arith

  -- Where there is no room or the slice fits its array, `append` shows the element more.
  pub append_one-contents :
      (spare : List A) (x : A) (s : Slice) (h : Arrays A)
      → s.len ≤ length (h.cells s.array)
      → let (t, g) = append_one spare x s h in contents g t ≡ contents h s ++ x ∷ []
  unfolding append_one
  append_one-contents spare x s h fits =
      let xs = h.cells s.array in
      elim (Bool-cases (ltb s.len (length xs))) [
        | inl room ↦
            rw (room, store_same s.array (modify xs s.len (λ _. x)) h)
              (take-append s.len x xs (ground arith))
        | inr full ↦
            let short = contents h s in
            let whole : (length short ≡ s.len) = length-take s.len xs fits in
            rw (full, store_same h.next (short ++ x ∷ spare) h)
              (take_snoc short x spare s.len whole)
      ]

  -- `append` writes to the slice's array or to a new one; the result fits.
  pub append_one-places :
      (spare : List A) (x : A) (s : Slice) (h : Arrays A)
      → s.len ≤ length (h.cells s.array)
      → s.array < h.next
      → let (t, g) = append_one spare x s h in
        (t.len ≤ length (g.cells t.array))
        × (t.array < g.next)
        × ((j : ℕ) → j < h.next → j ≢ s.array → g.cells j ≡ h.cells j)
        × ((t.array ≡ s.array) ⊎ (h.next ≤ t.array))
        × (h.next ≤ g.next)
  unfolding append_one
  append_one-places spare x s h fits there =
      let xs = h.cells s.array in
      let ys = modify xs s.len (λ _. x) in
      let long = contents h s ++ x ∷ spare in
      elim (Bool-cases (ltb s.len (length xs))) [
        | inl room ↦
            rw (room, store_same s.array ys h)
              (
                rw (length-modify xs s.len (λ _. x)) (ground arith),
                there,
                λ j under d. store_other s.array j ys h d,
                inl refl,
                omega arith,
              )
        | inr full ↦
            rw (full, store_same h.next long h)
              (
                omega (arith, length-append (contents h s) (x ∷ spare), length-take s.len xs fits),
                omega arith,
                λ j under d. store_other h.next j long h (λ e. absurd (omega arith)),
                inr (omega arith),
                omega arith,
              )
      ]
