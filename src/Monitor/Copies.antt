-- ===== src/Monitor/Copies.antt =====
-- `copyStringMap` and `copyTolerations` (autoscaler/pkg/monitor/pod_resources.go). The order in
-- which Go ranges over a map is a parameter. A slice shows its array of Monitor/Arrays.
use mathlib.Core.List.{Permᴰ}
use mathlib.Core.List.Permᴰ
use kubto.Prelude.{
  ◌<◌, ◌≡◌, ◌↔◌, refl, ap, subst, ◌∙◌, Option, none, some, List, [], ◌∷◌, String, str_eq,
  str_eq_iff, Assoc, lookup, insert, lookup-insert, arith, Bool-cases, inl, inr, if◌then◌else◌,
}
use kubto.Kube.{Toleration}
use kubto.Monitor.Arrays.{
  Slice, Arrays, take, contents, store, copy_slice, take_all, store_same, store_other,
}

-- The loop over the map's entries.
unfoldable pub copy_from : Assoc String → List (String × String) → Assoc String
copy_from out [] = out
copy_from out ((k, v) ∷ rest) = copy_from (insert k v out) rest

unfoldable pub copy_string_map :
    (Assoc String → List (String × String)) → Option (Assoc String) → Option (Assoc String)
unfolding copy_from
copy_string_map range none = none
copy_string_map range (some m) = some (copy_from [] (range m))

unfoldable pub copy_tolerations :
    Option Slice → Arrays Toleration → Option Slice × Arrays Toleration
copy_tolerations none h = (none, h)
copy_tolerations (some s) h = let (t, g) = copy_slice s h in (some t, g)

-- A key occurs once.
abbrev pub NodupKeys : Assoc String → Type 0
NodupKeys [] = Unit
NodupKeys ((k, v) ∷ m) = (lookup k m ≡ none) × NodupKeys m

-- What the copy has for a key: the last entry of it, or what was there.
abbrev last_of : String → Option String → List (String × String) → Option String
last_of k found [] = found
last_of k found ((j, v) ∷ rest) = last_of k (if str_eq j k then some v else found) rest

lookup-copy_from :
    (k : String) (out : Assoc String) (entries : List (String × String))
    → lookup k (copy_from out entries) ≡ last_of k (lookup k out) entries
unfolding copy_from
lookup-copy_from k out [] = refl
lookup-copy_from k out ((j, v) ∷ rest) =
    lookup-copy_from k (insert j v out) rest ∙ ap (λ o. last_of k o rest) (lookup-insert j k v out)

absent_cons :
    (k : String) (a : String × String) (xs ys : Assoc String)
    → (lookup k xs ≡ none → lookup k ys ≡ none)
    → lookup k (a ∷ xs) ≡ none
    → lookup k (a ∷ ys) ≡ none
absent_cons k (j, v) xs ys f h = elim (Bool-cases (str_eq j k)) [
  | inl e ↦ cc (rw e at h)
  | inr e ↦ rw e (f (rw e at h))
]

absent_swap :
    (k : String) (a b : String × String) (xs : Assoc String)
    → lookup k (a ∷ b ∷ xs) ≡ none
    → lookup k (b ∷ a ∷ xs) ≡ none
absent_swap k (j, v) (i, w) xs h = ground arith

-- A permutation adds no key.
absent-perm :
    (k : String) (xs ys : Assoc String) → Permᴰ xs ys → lookup k xs ≡ none → lookup k ys ≡ none
absent-perm k _ _ Permᴰ.nil h = h
absent-perm k _ _ (Permᴰ.cons {a = a} {l₁ = xs} {l₂ = ys} e d) h =
    subst (λ b. lookup k (b ∷ ys) ≡ none) e (absent_cons k a xs ys (absent-perm k xs ys d) h)
absent-perm k _ _ (Permᴰ.swap {a = a} {b = b} {a' = a'} {l = xs} e d) h =
    subst (λ y. lookup k (a' ∷ y ∷ xs) ≡ none) e
      (subst (λ y. lookup k (y ∷ a ∷ xs) ≡ none) d (absent_swap k a b xs h))
absent-perm k xs zs (Permᴰ.trans {l₂ = ys} c d) h = absent-perm k ys zs d (absent-perm k xs ys c h)

perm-NodupKeys : (xs ys : Assoc String) → Permᴰ xs ys → NodupKeys xs → NodupKeys ys
perm-NodupKeys _ _ Permᴰ.nil h = h
perm-NodupKeys _ _ (Permᴰ.cons {a = (j, v)} {l₁ = xs} {l₂ = ys} e d) h =
    subst (λ b. NodupKeys (b ∷ ys)) e (absent-perm j xs ys d h.0, perm-NodupKeys xs ys d h.1)
perm-NodupKeys _ _ (Permᴰ.swap {a = (j, v)} {b = (i, w)} {a' = a'} {l = xs} e d) h =
    subst (λ y. NodupKeys (a' ∷ y ∷ xs)) e
      (subst (λ y. NodupKeys (y ∷ (j, v) ∷ xs)) d (ground (arith, str_eq_iff i j, str_eq_iff j i)))
perm-NodupKeys xs zs (Permᴰ.trans {l₂ = ys} c d) h =
    perm-NodupKeys ys zs d (perm-NodupKeys xs ys c h)

last_of-lookup :
    (k : String) (found : Option String) (m : Assoc String)
    → NodupKeys m
    → last_of k found m ≡ elim (lookup k m) [ none ↦ found | some v ↦ some v ]
last_of-lookup k found [] h = refl
last_of-lookup k found ((j, v) ∷ m) h = elim (Bool-cases (str_eq j k)) [
  | inl e ↦
      let absent : (lookup k m ≡ none) = rw (← ((str_eq_iff j k).0 e)) (h.0) in
      rw (e, last_of-lookup k (some v) m h.1) (ground (arith, absent))
  | inr e ↦ rw e (last_of-lookup k found m h.1)
]

lookup_cons :
    (k : String) (a : String × String) (xs ys : Assoc String)
    → lookup k xs ≡ lookup k ys
    → lookup k (a ∷ xs) ≡ lookup k (a ∷ ys)
lookup_cons k (j, v) xs ys h = ap (λ o. if str_eq j k then some v else o) h

lookup_swap :
    (k : String) (a b : String × String) (xs : Assoc String)
    → NodupKeys (a ∷ b ∷ xs)
    → lookup k (a ∷ b ∷ xs) ≡ lookup k (b ∷ a ∷ xs)
lookup_swap k (j, v) (i, w) xs h = ground (arith, str_eq_iff i j, str_eq_iff j k, str_eq_iff i k)

lookup-perm :
    (k : String) (xs ys : Assoc String) → Permᴰ xs ys → NodupKeys xs → lookup k xs ≡ lookup k ys
lookup-perm k _ _ Permᴰ.nil h = refl
lookup-perm k _ _ (Permᴰ.cons {a = (j, v)} {l₁ = xs} {l₂ = ys} e d) h =
    subst (λ b. lookup k ((j, v) ∷ xs) ≡ lookup k (b ∷ ys)) e
      (lookup_cons k (j, v) xs ys (lookup-perm k xs ys d h.1))
lookup-perm k _ _ (Permᴰ.swap {a = a} {b = b} {a' = a'} {l = xs} e d) h =
    subst (λ y. lookup k (a ∷ b ∷ xs) ≡ lookup k (a' ∷ y ∷ xs)) e
      (subst (λ y. lookup k (a ∷ b ∷ xs) ≡ lookup k (y ∷ a ∷ xs)) d (lookup_swap k a b xs h))
lookup-perm k xs zs (Permᴰ.trans {l₂ = ys} c d) h =
    lookup-perm k xs ys c h ∙ lookup-perm k ys zs d (perm-NodupKeys xs ys c h)

same_option : (o : Option String) → elim o [ none ↦ none | some v ↦ some v ] ≡ o
same_option none = refl
same_option (some v) = refl

-- What a map has for a key, where a nil map has nothing.
abbrev pub value_at : String → Option (Assoc String) → Option String
value_at k none = none
value_at k (some m) = lookup k m

-- Where each key occurs once and Go ranges over all entries, in any order: the copy of a map is nil
-- exactly where the map is, and has the same value for each key.
pub value_at-copy_string_map :
    (range : Assoc String → List (String × String)) (m : Option (Assoc String))
    → ((entries : Assoc String) → Permᴰ (range entries) entries)
    → ((entries : Assoc String) → m ≡ some entries → NodupKeys entries)
    → ((copy_string_map range m ≡ none) ↔ (m ≡ none))
      × ((k : String) → value_at k (copy_string_map range m) ≡ value_at k m)
unfolding copy_string_map
value_at-copy_string_map range none all once = ((λ e. refl, λ e. refl), λ k. refl)
value_at-copy_string_map range (some m) all once =
    let unique = perm-NodupKeys m (range m) (Permᴰ.symm (all m)) (once m refl) in
    (
      (λ e. cc, λ e. cc),
      λ k.
          lookup-copy_from k [] (range m)
          ∙ (last_of-lookup k none (range m) unique
              ∙ (same_option (lookup k (range m)) ∙ lookup-perm k (range m) m (all m) unique)),
    )

-- What the copy of a list of tolerations shows stays as it was, whatever is later written to the
-- array that was copied.
pub copy_tolerations-kept :
    (s : Slice) (h : Arrays Toleration) (later : List Toleration)
    → s.array < h.next
    → let (copy, g) = copy_tolerations (some s) h in
      (t : Slice) × (copy ≡ some t) × (contents (store s.array later g) t ≡ contents h s)
unfolding copy_tolerations copy_slice
copy_tolerations-kept s h later there =
    let (t, g) = copy_slice s h in
    (
      t,
      refl,
      ap (take t.len) (
            store_other s.array t.array later g (λ e. absurd (omega arith))
            ∙ store_same h.next (contents h s) h)
          ∙ take_all (contents h s),
    )
