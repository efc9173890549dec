-- ===== src/Provisioner/Fake/Overlap.antt =====
-- Calls of the fake provisioner that overlap: `CreateNode` lets go of its lock while it sleeps, so
-- its two halves are two steps, with steps of other calls between them.
use kubto.Prelude.{
  ℕ, ◌+◌, ◌≤◌, ◌≡◌, ◌≢◌, refl, sym, ◌∙◌, inl, inr, Bool-cases, arith, List, [], ◌∷◌, ◌++◌, String,
  decimal-injective, append-left_injective, All, All-append, ltb, leb, ◌&&◌, ◌==◌, add64,
  add64_of_lt, IsNat64, is_neg, false, ◌<>◌, decimal,
}
use kubto.Provisioner.Fake.{
  FakeNodeProvisioner, Started, is_set, begin_create, fake_name, end_create, cordon_node,
  terminate_node, reset,
}

-- The provisioner, and the calls of `CreateNode` that are asleep.
pub record Overlapping : Type 0 where
  pub fake : FakeNodeProvisioner
  pub asleep : List Started

pub data FakeStep (s : Overlapping) : Overlapping → Type 0 where
  begins :
      FakeStep s
        (record s { fake = (begin_create s.fake).1; asleep = (begin_create s.fake).0 ∷ s.asleep })
  wakes :
      (before after : List Started) (c : Started)
      → s.asleep ≡ before ++ c ∷ after
      → FakeStep s (record s { fake = (end_create c s.fake).1; asleep = before ++ after })
  is_cut_short :
      (before after : List Started) (c : Started)
      → s.asleep ≡ before ++ c ∷ after
      → FakeStep s (record s { asleep = before ++ after })
  cordons : (name : String) → FakeStep s (record s { fake = (cordon_node s.fake name).1 })
  terminates : (name : String) → FakeStep s (record s { fake = (terminate_node s.fake name).1 })
  resets : FakeStep s (record s { fake = reset s.fake })

pub data FakeReach (s : Overlapping) : Overlapping → Type 0 where
  still : FakeReach s s
  and_then : {t u : Overlapping} → FakeReach s t → FakeStep t u → FakeReach s u

-- No text stands twice in the list.
abbrev pub IsUnique : List String → Type 0
IsUnique [] = Unit
IsUnique (x ∷ xs) = All (λ y. y ≢ x) xs × IsUnique xs

snoc-IsUnique :
    (xs : List String) (y : String) → IsUnique xs → All (λ x. x ≢ y) xs → IsUnique (xs ++ y ∷ [])
snoc-IsUnique [] y u h = (tt, tt)
snoc-IsUnique (x ∷ xs) y u h =
    (All-append (λ z. z ≢ x) xs (y ∷ []) u.0 ((λ e. h.0 (sym e)), tt), snoc-IsUnique xs y u.1 h.1)

-- The name has a number up to this one.
abbrev IsNumbered : ℕ → String → Type 0
IsNumbered n name = (k : ℕ) × (k ≤ n) × (name ≡ fake_name k)

fake_name-injective : (m n : ℕ) → IsNat64 m → IsNat64 n → fake_name m ≡ fake_name n → m ≡ n
unfolding fake_name
fake_name-injective m n hm hn e =
    let (first, second) : (is_neg m ≡ false) × (is_neg n ≡ false) = ground arith in
    let same : ("fake-node-" <> decimal m) ≡ ("fake-node-" <> decimal n) =
      rw (first, second) at e in
    decimal-injective m n (append-left_injective "fake-node-" _ _ same)

later_numbers : (n : ℕ) (xs : List String) → All (IsNumbered n) xs → All (IsNumbered (n + 1)) xs
later_numbers n [] h = tt
later_numbers n (x ∷ xs) h =
    let ((k, le, e), rest) = h in ((k, omega arith, e), later_numbers n xs rest)

next_is_new :
    (n : ℕ) (xs : List String)
    → IsNat64 (n + 1)
    → All (IsNumbered n) xs
    → All (λ x. x ≢ fake_name (n + 1)) xs
next_is_new n [] fits h = tt
next_is_new n (x ∷ xs) fits h =
    let ((k, le, e), rest) = h in
    (
      λ same.
          let two = fake_name-injective k (n + 1) (omega arith) fits (sym e ∙ same) in
          absurd (omega arith),
      next_is_new n xs fits rest,
    )

-- The recorded names are different and have numbers up to the counter's, which is `n` at most.
record Names (n : ℕ) (f : FakeNodeProvisioner) : Type 0 where
  pub unique : IsUnique f.created_nodes
  pub numbered : All (IsNumbered f.counter) f.created_nodes
  pub counted : f.counter ≤ n

created-Names :
    (n : ℕ) (f : FakeNodeProvisioner)
    → IsNat64 (n + 1)
    → Names n f
    → Names (n + 1) (record f {
      counter = add64 f.counter 1;
      created_nodes = f.created_nodes ++ fake_name (add64 f.counter 1) ∷ [];
    })
created-Names n f fits v =
    let counted = v.counted in
    let next = add64_of_lt f.counter 1 (omega arith) in
    rw next (record {
      unique =
          snoc-IsUnique f.created_nodes _ v.unique
            (next_is_new f.counter f.created_nodes (omega arith) v.numbered);
      numbered =
          All-append (IsNumbered (f.counter + 1)) f.created_nodes _
            (later_numbers f.counter f.created_nodes v.numbered)
            ((f.counter + 1, omega arith, refl), tt);
      counted = omega arith;
    })

one_more : (n : ℕ) (f : FakeNodeProvisioner) → Names n f → Names (n + 1) f
one_more n f v = record {
  unique = v.unique;
  numbered = v.numbered;
  counted = omega (arith, v.counted);
}

end_create-Names :
    (n : ℕ) (c : Started) (f : FakeNodeProvisioner)
    → IsNat64 (n + 1)
    → Names n f
    → Names (n + 1) (end_create c f).1
unfolding end_create
end_create-Names n c f fits v =
    elim (Bool-cases (ltb 0 c.fail_limit && leb c.fail_limit c.already)) [
      | inl full ↦ rw full (one_more n f v)
      | inr open_limit ↦ elim (Bool-cases (is_set c.create_err && (c.fail_limit == 0))) [
        | inl fails ↦ rw (open_limit, fails) (one_more n f v)
        | inr works ↦ rw (open_limit, works) (created-Names n f fits v)
      ]
    ]

cordon_node-Names :
    (n : ℕ) (f : FakeNodeProvisioner) (name : String) → Names n f → Names n (cordon_node f name).1
unfolding cordon_node
cordon_node-Names n f name v = elim (Bool-cases (is_set f.cordon_error)) [
  | inl fails ↦ rw fails v
  | inr works ↦ rw works (record { unique = v.unique; numbered = v.numbered; counted = v.counted })
]

terminate_node-Names :
    (n : ℕ) (f : FakeNodeProvisioner) (name : String)
    → Names n f
    → Names n (terminate_node f name).1
unfolding terminate_node
terminate_node-Names n f name v = elim (Bool-cases (is_set f.terminate_error)) [
  | inl fails ↦ rw fails v
  | inr works ↦ rw works (record { unique = v.unique; numbered = v.numbered; counted = v.counted })
]

step-Names :
    {s t : Overlapping} (n : ℕ)
    → IsNat64 (n + 1)
    → FakeStep s t
    → Names n s.fake
    → Names (n + 1) t.fake
unfolding begin_create reset
step-Names {s} n fits begins v = record {
  unique = v.unique;
  numbered = v.numbered;
  counted = (one_more n s.fake v).counted;
}
step-Names {s} n fits (wakes before after c e) v = end_create-Names n c s.fake fits v
step-Names {s} n fits (is_cut_short before after c e) v = one_more n s.fake v
step-Names {s} n fits (cordons name) v = one_more n _ (cordon_node-Names n s.fake name v)
step-Names {s} n fits (terminates name) v = one_more n _ (terminate_node-Names n s.fake name v)
step-Names {s} n fits resets v = record {
  unique = tt;
  numbered = tt;
  counted = (one_more n s.fake v).counted;
}

-- How many steps were made.
abbrev pub steps : {s t : Overlapping} → FakeReach s t → ℕ
steps still = 0
steps (and_then r step) = steps r + 1

reach-Names :
    {s t : Overlapping} (n : ℕ) (r : FakeReach s t)
    → IsNat64 (n + steps r)
    → Names n s.fake
    → Names (n + steps r) t.fake
reach-Names n still fits v = let same : n + 0 ≡ n = omega arith in rw same v
reach-Names {t = t} n (and_then r step) fits v =
    let same : (n + (steps r + 1) ≡ n + steps r + 1) = omega arith in
    rw same (step-Names (n + steps r) (omega arith) step (reach-Names n r (omega arith) v))

-- However calls overlap and whichever are cut short, from a provisioner without nodes on, with
-- whatever errors, limit and delay are set in it: the names that it records are all different, as
-- long as its counter and the number of steps together stay below 2 ^ 63.
pub overlapping-IsUnique :
    (s t : Overlapping) (r : FakeReach s t)
    → s.fake.created_nodes ≡ []
    → IsNat64 (s.fake.counter + steps r)
    → IsUnique t.fake.created_nodes
overlapping-IsUnique s t r none_yet fits =
    (reach-Names s.fake.counter r fits
      (record { unique = rw none_yet tt; numbered = rw none_yet tt; counted = omega arith })).unique
