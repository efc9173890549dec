-- ===== src/Monitor/Sharing/Filter.antt =====
-- `RemoveNode` filters the array of the nodes in its place.
use mathlib.Core.List.{append-nil}
use kubto.Prelude.{
  ℕ, zero, suc, ◌≤◌, ◌<◌, ◌≡◌, ◌≢◌, refl, sym, ap, ◌∙◌, inl, inr, true, not, ltb, some, List, [],
  ◌∷◌, ◌++◌, String, str_eq, none, append-cons, length, get_elem?, modify, length-modify, select,
  Bool-cases, arith,
}
use kubto.Monitor.Types.{NodeInfo}
use kubto.Monitor.Arrays.{
  Slice, Arrays, take, contents, store, append_one, take-append, store_same, store_other,
}
use kubto.Monitor.Sharing.{filter_from}

module _ {ℓ} {A : Type ℓ} where
  abbrev drop : ℕ → List A → List A
  drop zero xs = xs
  drop (suc n) [] = []
  drop (suc n) (x ∷ xs) = drop n xs

  -- What stands first behind a number of elements.
  drop-get_elem? :
      (i : ℕ) (xs : List A) (x : A) (rest : List A)
      → drop i xs ≡ x ∷ rest
      → (get_elem? xs i ≡ some x) × (drop (suc i) xs ≡ rest) × (i < length xs)
  drop-get_elem? zero [] x rest e = cc
  drop-get_elem? zero (y ∷ xs) x rest e = (cc, cc, omega arith)
  drop-get_elem? (suc i) [] x rest e = cc
  drop-get_elem? (suc i) (y ∷ xs) x rest e =
      let (at, later, under) = drop-get_elem? i xs x rest e in (at, later, omega arith)

  drop-nil : (i : ℕ) (xs : List A) → drop i xs ≡ [] → get_elem? xs i ≡ none
  drop-nil zero [] e = refl
  drop-nil zero (x ∷ xs) e = cc
  drop-nil (suc i) [] e = refl
  drop-nil (suc i) (x ∷ xs) e = drop-nil i xs e

  -- A write before them leaves the elements behind.
  drop-modify :
      (i k : ℕ) (f : A → A) (xs : List A) → k ≤ i → drop (suc i) (modify xs k f) ≡ drop (suc i) xs
  drop-modify i k f [] h = refl
  drop-modify i zero f (x ∷ xs) h = refl
  drop-modify zero (suc k) f (x ∷ xs) h = absurd (omega arith)
  drop-modify (suc i) (suc k) f (x ∷ xs) h = drop-modify i k f xs (omega arith)

  -- Where there is room, `append` stays in the array.
  append_one_room :
      (spare : List A) (x : A) (s : Slice) (h : Arrays A)
      → s.len < length (h.cells s.array)
      → append_one spare x s h
        ≡ (record s { len = suc s.len }, store s.array (modify (h.cells s.array) s.len (λ _. x)) h)
  unfolding append_one
  append_one_room spare x s h room =
      let yes_room : (ltb s.len (length (h.cells s.array)) ≡ true) = ground arith in
      rw yes_room refl

module _ {Q : Type 0} where
  -- From the arrays `h` to `g`: the slice `t` shows these nodes, in the same array, which is as
  -- long as it was; the other arrays are as they were, and no array is new.
  abbrev ShowsIn :
      (array : ℕ) → Arrays (NodeInfo Q) → List (NodeInfo Q) → Slice × Arrays (NodeInfo Q) → Type 0
  ShowsIn array h xs (t, g) =
      (contents g t ≡ xs)
      × (t.array ≡ array)
      × (t.len ≤ length (g.cells array))
      × ((j : ℕ) → j ≢ array → g.cells j ≡ h.cells j)
      × (g.next ≡ h.next)

  pub filter_from_lem :
      (array count i k : ℕ) (name : String) (h : Arrays (NodeInfo Q)) (rest : List (NodeInfo Q))
      → drop i (h.cells array) ≡ rest
      → k ≤ i
      → k ≤ length (h.cells array)
      → ShowsIn array h
          (take k (h.cells array) ++ select (λ n. not (str_eq n.name name)) (take count rest))
          (filter_from array count i name (record { array = array; len = k }) h)
  unfolding filter_from
  filter_from_lem array zero i k name h rest e low fits =
      (sym (append-nil _), refl, fits, λ j d. refl, refl)
  filter_from_lem array (suc count) i k name h [] e low fits =
      rw (filter_from, drop-nil i (h.cells array) e)
        (sym (append-nil _), refl, fits, λ j d. refl, refl)
  filter_from_lem array (suc count) i k name h (n ∷ rest) e low fits =
      let xs = h.cells array in
      let (at, later, under) = drop-get_elem? i xs n rest e in
      elim (Bool-cases (str_eq n.name name)) [
        | inl named ↦
            rw (filter_from, at, named)
              (filter_from_lem array count (suc i) k name h rest later (omega arith) fits)
        | inr other ↦
            let ys = modify xs k (λ _. n) in
            let g = store array ys h in
            let same = store_same array ys h in
            let room = append_one_room [] n (record { array = array; len = k }) h (omega arith) in
            let behind : (drop (suc i) (g.cells array) ≡ rest) =
              ap (drop (suc i)) same ∙ (drop-modify i k (λ _. n) xs low ∙ later) in
            let (shown, in_array, within, others, kept) =
              filter_from_lem array count (suc i) (suc k) name g rest behind (omega arith)
                (rw (same, length-modify xs k (λ _. n)) (omega arith)) in
            let front : (take (suc k) (g.cells array) ≡ take k xs ++ n ∷ []) =
              ap (take (suc k)) same ∙ take-append k n xs (omega arith) in
            rw (filter_from, at, other, room)
              (
                shown
                    ∙ (ap (λ f. f ++ select (λ m. not (str_eq m.name name)) (take count rest)) front
                        ∙ append-cons (take k xs) n _),
                in_array,
                within,
                λ j d. others j d ∙ store_other array j ys h d,
                kept,
              )
      ]
