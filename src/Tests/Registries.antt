-- ===== src/Tests/Registries.antt =====
-- The theorems on the registration of metrics, at a registry that is a list.
use mathlib.Core.List.{reverse_aux, Memᴰ}
use kubto.Prelude.{
  ◌≡◌, refl, Bool, true, false, arith, none, some, List, [], ◌∷◌, str_eq, str_eq_iff, All, any,
  if◌then◌else◌,
}
use kubto.Controller.Metrics.Collectors.{
  Collector, collectors_of, new_handles, Registration, registered, already_registered, Registerer,
  Process, made, create_metrics,
}
use kubto.Controller.Metrics.Collectors.Registered.{IsUnseen, IsLawful}
use kubto.Controller.Metrics.Collectors.Twice.{second-unexported}

abbrev is_known : Collector → List Collector → Bool
is_known c ds = any (λ d. str_eq d.opts.name c.opts.name) ds

unfoldable add_collector : List Collector → Collector → Registration × List Collector
add_collector ds c = if is_known c ds then (already_registered, ds) else (registered, c ∷ ds)

abbrev listed : Registerer (List Collector)
listed = record { register = add_collector }

unseen_unknown : (ds : List Collector) (c : Collector) → IsUnseen ds c → is_known c ds ≡ false
unseen_unknown [] c u = refl
unseen_unknown (d ∷ ds) c u =
    ground (arith, str_eq_iff d.opts.name c.opts.name, unseen_unknown ds c)

shown_known :
    (ds : List Collector) (c d : Collector) → Memᴰ d ds → d.opts ≡ c.opts → is_known c ds ≡ true
shown_known [] c d h e = elim h [ ]
shown_known (x ∷ ds) c d (Memᴰ.head same) e = rw ((str_eq_iff x.opts.name c.opts.name).1 (cc)) refl
shown_known (x ∷ ds) c d (Memᴰ.tail h) e = rw (shown_known ds c d h e) (ground arith)

listed-IsLawful : IsLawful listed (λ ds. ds)
unfolding add_collector
listed-IsLawful = record {
  fresh = λ r c u. rw (unseen_unknown r c u) (refl, refl);
  again = λ r c d h e. rw (shown_known r c d h e) refl;
}

abbrev fresh_process : Process (List Collector)
fresh_process = record { registries = λ k. []; next_address = 0; once = false; reg = none }

abbrev first_process : Process (List Collector)
first_process = (create_metrics listed (some 3) fresh_process).1

none_shown : (cs : List Collector) → All (IsUnseen []) cs
none_shown [] = tt
none_shown (c ∷ cs) = (tt, none_shown cs)

All-IsUnseen : All (IsUnseen []) (collectors_of (new_handles 3 0))
All-IsUnseen = none_shown (collectors_of (new_handles 3 0))

second-unexported_example :
    let first = new_handles 3 0 in
    let (answer, t) = create_metrics listed (some 3) first_process in
    let own = new_handles 3 first_process.next_address in
    ((create_metrics listed (some 3) fresh_process).0 ≡ made first)
    × (first_process.registries 3 ≡ reverse_aux (collectors_of first) [])
    × (answer ≡ made own)
    × (t.registries 3 ≡ first_process.registries 3)
    × All (λ c. ¬ Memᴰ c (t.registries 3)) (collectors_of own)
second-unexported_example =
    second-unexported listed (λ ds. ds) listed-IsLawful (some 3) fresh_process All-IsUnseen tt
