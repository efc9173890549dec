-- ===== src/Controller/Metrics/Collectors/Registered.antt =====
-- Which collectors a registry shows after `NewMetrics` and `Default`.
use mathlib.Core.List.{reverse_aux, Memᴰ}
use kubto.Prelude.{
  ℕ, ◌+◌, ◌<◌, ◌≤◌, ◌≡◌, refl, ap, sym, subst, map, ◌≢◌, ◌∙◌, Bool, true, not, ◌&&◌, arith, List,
  [], ◌∷◌, str_eq, str_eq_iff, All,
}
use kubto.Controller.Metrics.Collectors.{
  Collector, new_handles, collectors_of, registered, already_registered, Registerer, register_all,
}

-- No collector of the list has the name of this one.
abbrev pub IsUnseen : List Collector → Collector → Type 0
IsUnseen ds c = All (λ d. d.opts.name ≢ c.opts.name) ds

-- No two collectors have one name.
abbrev HaveNames : List Collector → Type 0
HaveNames [] = Unit {0}
HaveNames (c ∷ cs) = All (λ d. c.opts.name ≢ d.opts.name) cs × HaveNames cs

-- What Prometheus documents of `Register`, where `gathered` lists the collectors that a registry
-- shows: a collector with a new name is added; one whose options are those of another is refused
-- as already registered, and changes nothing.
pub record IsLawful {R : Type 0} (lib : Registerer R) (gathered : R → List Collector) : Type 0 where
  pub fresh :
      (r : R) (c : Collector)
      → IsUnseen (gathered r) c
      → ((lib.register r c).0 ≡ registered) × (gathered (lib.register r c).1 ≡ c ∷ gathered r)
  pub again :
      (r : R) (c d : Collector)
      → Memᴰ d (gathered r)
      → d.opts ≡ c.opts
      → lib.register r c ≡ (already_registered, r)

is_new_name : Collector → List Collector → Bool
is_new_name c [] = true
is_new_name c (d ∷ ds) = not (str_eq c.opts.name d.opts.name) && is_new_name c ds

names_differ : List Collector → Bool
unfolding is_new_name
names_differ [] = true
names_differ (c ∷ cs) = is_new_name c cs && names_differ cs

new_name_sound :
    (c : Collector) (ds : List Collector)
    → is_new_name c ds ≡ true
    → All (λ d. c.opts.name ≢ d.opts.name) ds
unfolding is_new_name
new_name_sound c [] e = tt
new_name_sound c (d ∷ ds) e =
    ground (arith, str_eq_iff c.opts.name d.opts.name, new_name_sound c ds)

names_differ-HaveNames : (cs : List Collector) → names_differ cs ≡ true → HaveNames cs
unfolding names_differ
names_differ-HaveNames [] e = tt
names_differ-HaveNames (c ∷ cs) e = ground (arith, new_name_sound c cs, names_differ-HaveNames cs)

-- The twelve names are different.
pub new_handles-HaveNames : (k n : ℕ) → HaveNames (collectors_of (new_handles k n))
unfolding names_differ is_new_name collectors_of new_handles
new_handles-HaveNames k n = names_differ-HaveNames (collectors_of (new_handles k n)) refl

IsUnseen-after :
    (c : Collector) (cs g : List Collector)
    → All (λ d. c.opts.name ≢ d.opts.name) cs
    → All (IsUnseen g) cs
    → All (IsUnseen (c ∷ g)) cs
IsUnseen-after c [] g h u = tt
IsUnseen-after c (d ∷ cs) g h u = ((h.0, u.0), IsUnseen-after c cs g h.1 u.1)

module _ {R : Type 0} (lib : Registerer R) (gathered : R → List Collector)
    (law : IsLawful lib gathered) where
  pub register_all_fresh :
      (cs : List Collector) (r : R)
      → HaveNames cs
      → All (IsUnseen (gathered r)) cs
      → ((register_all lib cs r).0 ≡ true)
        × (gathered (register_all lib cs r).1 ≡ reverse_aux cs (gathered r))
  unfolding register_all
  register_all_fresh [] r names new = (refl, refl)
  register_all_fresh (c ∷ cs) r names new =
      let (fine, shown) = law.fresh r c new.0 in
      let t = (lib.register r c).1 in
      let rest =
        register_all_fresh cs t names.1
          (rw shown (IsUnseen-after c cs (gathered r) names.0 new.1)) in
      rw (register_all, fine) (rest.0, rest.1 ∙ ap (reverse_aux cs) shown)

  pub register_all_again :
      (cs : List Collector) (r : R)
      → All (λ c. (d : Collector) × Memᴰ d (gathered r) × (d.opts ≡ c.opts)) cs
      → register_all lib cs r ≡ (true, r)
  unfolding register_all
  register_all_again [] r known = refl
  register_all_again (c ∷ cs) r ((d, there, same), known) =
      rw (register_all, law.again r c d there same) (register_all_again cs r known)

keeps_shown : (cs g : List Collector) (c : Collector) → Memᴰ c g → Memᴰ c (reverse_aux cs g)
keeps_shown [] g c h = h
keeps_shown (d ∷ cs) g c h = keeps_shown cs (d ∷ g) c (Memᴰ.tail h)

pub All-shown : (cs g : List Collector) → All (λ c. Memᴰ c (reverse_aux cs g)) cs
All-shown [] g = tt
All-shown (c ∷ cs) g = (keeps_shown cs (c ∷ g) c (Memᴰ.head refl), All-shown cs (c ∷ g))

pub All-reverse_aux :
    (P : Collector → Type 0) (cs g : List Collector) → All P cs → All P g → All P (reverse_aux cs g)
All-reverse_aux P [] g a b = b
All-reverse_aux P (c ∷ cs) g a b = All-reverse_aux P cs (c ∷ g) a.1 (a.0, b)

pub All-Memᴰ :
    (P : Collector → Type 0) (g : List Collector) (c : Collector) → All P g → Memᴰ c g → P c
All-Memᴰ P [] c a h = elim h [ ]
All-Memᴰ P (d ∷ g) c a (Memᴰ.head e) = subst P (sym e) a.0
All-Memᴰ P (d ∷ g) c a (Memᴰ.tail h) = All-Memᴰ P g c a.1 h

-- Another list with the same options is known where the first is shown.
pub known_by_opts :
    (g cs ds : List Collector)
    → map (λ d. d.opts) ds ≡ map (λ c. c.opts) cs
    → All (λ d. Memᴰ d g) ds
    → All (λ c. (d : Collector) × Memᴰ d g × (d.opts ≡ c.opts)) cs
known_by_opts g [] ds e h = tt
known_by_opts g (c ∷ cs) [] e h = cc
known_by_opts g (c ∷ cs) (d ∷ ds) e h = ((d, h.0, cc), known_by_opts g cs ds (cc) h.1)

pub new_handles_opts :
    (k m n : ℕ)
    → map (λ d. d.opts) (collectors_of (new_handles k m))
      ≡ map (λ c. c.opts) (collectors_of (new_handles k n))
unfolding collectors_of new_handles
new_handles_opts k m n = refl

-- The new objects have addresses from `n` up to `n + 12`.
abbrev pub LiesWithin : ℕ → ℕ → Collector → Type 0
LiesWithin m n c = (m ≤ c.address) × (c.address < n)

pub new_handles_addresses :
    (k n : ℕ) → All (LiesWithin n (n + 12)) (collectors_of (new_handles k n))
unfolding collectors_of new_handles
new_handles_addresses k n = ground arith
