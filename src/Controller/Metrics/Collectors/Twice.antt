-- ===== src/Controller/Metrics/Collectors/Twice.antt =====
-- `NewMetrics` on one registry once and twice, and `Default` called again.
use mathlib.Core.List.{reverse_aux, Memᴰ}
use kubto.Prelude.{
  ℕ, ◌+◌, ◌<◌, ◌≤◌, ◌≡◌, refl, ap, sym, subst, ◌∙◌, ◌⊎◌, inl, inr, true, false, arith, Option, none,
  List, [], ◌∷◌, All,
}
use kubto.Controller.Metrics.Collectors.{
  Collector, Handles, new_handles, collectors_of, Registerer, Process, registerer_or_default, Made,
  made, panicked, register_all, create_metrics, default_metrics,
}
use kubto.Controller.Metrics.Collectors.Registered.{
  IsUnseen, IsLawful, LiesWithin, new_handles-HaveNames, register_all_fresh, register_all_again,
  All-shown, All-reverse_aux, All-Memᴰ, known_by_opts, new_handles_opts, new_handles_addresses,
}

module _ {R : Type 0} (lib : Registerer R) (gathered : R → List Collector)
    (law : IsLawful lib gathered) (registerer : Option ℕ) (p : Process R) where
  -- The registry that is used, and the objects that are made.
  abbrev pub cell : ℕ
  cell = registerer_or_default registerer

  abbrev made_handles : Handles
  made_handles = new_handles cell p.next_address

  create_metrics_run :
      (r : R)
      → register_all lib (collectors_of made_handles) (p.registries cell) ≡ (true, r)
      → ((create_metrics lib registerer p).0 ≡ made made_handles)
        × ((create_metrics lib registerer p).1.registries cell ≡ r)
  unfolding create_metrics
  create_metrics_run r e = rw (create_metrics, e) (refl, ground arith)

  create_metrics_next : (create_metrics lib registerer p).1.next_address ≡ p.next_address + 12
  unfolding create_metrics
  create_metrics_next = refl

  -- On a registry that shows none of the twelve names, `NewMetrics` does not panic, and the
  -- registry shows, besides what it showed, exactly the twelve collectors of the result.
  create_metrics-registers :
      All (IsUnseen (gathered (p.registries cell))) (collectors_of made_handles)
      → let (answer, q) = create_metrics lib registerer p in
        (answer ≡ made made_handles)
        × (gathered (q.registries cell)
            ≡ reverse_aux (collectors_of made_handles) (gathered (p.registries cell)))
  create_metrics-registers unseen =
      let start = p.registries cell in
      let cs = collectors_of made_handles in
      let (fine, shown) =
        register_all_fresh lib gathered law cs start (new_handles-HaveNames cell p.next_address)
          unseen in
      let whole : (register_all lib cs start ≡ (true, (register_all lib cs start).1)) =
        ap (λ b. (b, (register_all lib cs start).1)) fine in
      let (answer, at) = create_metrics_run (register_all lib cs start).1 whole in
      (answer, ap gathered at ∙ shown)

unexported :
    (g cs : List Collector) (n : ℕ)
    → All (λ c. c.address < n) g
    → All (LiesWithin n (n + 12)) cs
    → All (λ c. ¬ Memᴰ c g) cs
unexported g [] n low high = tt
unexported g (c ∷ cs) n low high = (
  λ h. let under = All-Memᴰ (λ d. d.address < n) g c low h in absurd (omega (arith, high.0.0)),
  unexported g cs n low high.1,
)

weaker :
    (g : List Collector) (m n : ℕ) → m ≤ n → All (λ c. c.address < m) g → All (λ c. c.address < n) g
weaker [] m n h a = tt
weaker (c ∷ g) m n h a = (omega (arith, a.0), weaker g m n h a.1)

upper : (g : List Collector) (m n : ℕ) → All (LiesWithin m n) g → All (λ c. c.address < n) g
upper [] m n a = tt
upper (c ∷ g) m n a = (a.0.1, upper g m n a.1)

module _ {R : Type 0} (lib : Registerer R) (gathered : R → List Collector)
    (law : IsLawful lib gathered) (registerer : Option ℕ) (p : Process R) where
  -- On a registry that shows none of the twelve names, and only objects at addresses in use,
  -- `NewMetrics` does not panic, and the registry shows exactly the twelve collectors of the result
  -- more. A second `NewMetrics` does not panic either, and leaves the registry as it was; but of
  -- its own twelve collectors the registry shows none.
  pub second-unexported :
      let k = registerer_or_default registerer in
      All (IsUnseen (gathered (p.registries k))) (collectors_of (new_handles k p.next_address))
      → All (λ c. c.address < p.next_address) (gathered (p.registries k))
      → let q = (create_metrics lib registerer p).1 in
        let first = new_handles k p.next_address in
        let (answer, t) = create_metrics lib registerer q in
        let own = new_handles k q.next_address in
        ((create_metrics lib registerer p).0 ≡ made first)
        × (gathered (q.registries k)
            ≡ reverse_aux (collectors_of first) (gathered (p.registries k)))
        × (answer ≡ made own)
        × (t.registries k ≡ q.registries k)
        × All (λ c. ¬ Memᴰ c (gathered (t.registries k))) (collectors_of own)
  second-unexported unseen used =
      let k = registerer_or_default registerer in
      let n = p.next_address in
      let q = (create_metrics lib registerer p).1 in
      let cs = collectors_of (new_handles k n) in
      let g = gathered (p.registries k) in
      let (fine, shown) = create_metrics-registers lib gathered law registerer p unseen in
      let next = create_metrics_next lib gathered law registerer p in
      let known =
        known_by_opts (gathered (q.registries k)) (collectors_of (new_handles k q.next_address)) cs
          (new_handles_opts k n q.next_address)
          (subst (λ h. All (λ d. Memᴰ d h) cs) (sym shown) (All-shown cs g)) in
      let (answer, at) =
        create_metrics_run lib gathered law registerer q (q.registries k)
          (register_all_again lib gathered law _ _ known) in
      let low =
        All-reverse_aux (λ c. c.address < n + 12) cs g
          (upper cs n (n + 12) (new_handles_addresses k n))
          (weaker g n (n + 12) (omega arith) used) in
      (
        fine,
        shown,
        answer,
        at,
        unexported _ _ q.next_address (rw (at, shown, next) low)
            (new_handles_addresses k q.next_address),
      )

Made-cases : {A : Type 0} (x : Made A) → ((a : A) × (x ≡ made a)) ⊎ (x ≡ panicked)
Made-cases (made a) = inl (a, refl)
Made-cases panicked = inr refl

module _ {R : Type 0} (lib : Registerer R) where
  -- After a call of `Default`, be it one that panics, each further call returns what the variable
  -- holds and registers nothing; and if the first call did not panic, this is its result.
  default_metrics-once :
      (p : Process R)
      → p.once ≡ false
      → let (answer, q) = default_metrics lib p in
        (default_metrics lib q ≡ (made q.reg, q)) × ((answer ≡ panicked) ⊎ (answer ≡ made q.reg))
  unfolding default_metrics
  default_metrics-once p first =
      elim (Made-cases (create_metrics lib none (record p { once = true })).0) [
        | inl (m, e) ↦ rw (first, e) (refl, inr refl)
        | inr e ↦ rw (first, e) (refl, inl refl)
      ]
