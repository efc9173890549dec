-- ===== src/Monitor/Watchers/Sorted.antt =====
-- The loop of `sync` (pod_watcher.go) sorts the pods into pending and scheduled ones.
use mathlib.Core.List.{append-nil, append_assoc}
use kubto.Prelude.{◌≡◌, Bool, none, some, List, [], ◌∷◌, ◌++◌, Bool-cases, inl, inr, if◌then◌else◌}
use kubto.Platform.{Quantity}
use kubto.Kube.{Pod}
use kubto.Monitor.Types.{PodInfo}
use kubto.Monitor.Watchers.{Item, is_pending, is_active, pod_to_info, sort_pods}

module _ {Q : Type 0} ⦃q : Quantity Q⦄ where
  -- The entries of the pods that pass a test, in order.
  abbrev pub infos_of : (Pod Q → Bool) → List (Item Q) → List (PodInfo Q)
  infos_of test [] = []
  infos_of test (none ∷ items) = infos_of test items
  infos_of test (some pod ∷ items) =
      if test pod then pod_to_info (some pod) ∷ infos_of test items else infos_of test items

  pub sort_pods_lem :
      (pending scheduled : List (PodInfo Q)) (items : List (Item Q))
      → sort_pods pending scheduled items
        ≡ (pending ++ infos_of is_pending items, scheduled ++ infos_of is_active items)
  unfolding sort_pods
  sort_pods_lem pending scheduled [] = simp (append-nil)
  sort_pods_lem pending scheduled (none ∷ items) = sort_pods_lem pending scheduled items
  sort_pods_lem pending scheduled (some pod ∷ items) =
      let info = pod_to_info (some pod) in
      let more = pending ++ info ∷ [] in
      let bound = scheduled ++ info ∷ [] in
      elim (Bool-cases (is_pending pod)) [
        | inl p ↦ elim (Bool-cases (is_active pod)) [
          | inl a ↦ simp (p, a, sort_pods_lem more bound items, append_assoc)
          | inr a ↦ simp (p, a, sort_pods_lem more scheduled items, append_assoc)
        ]
        | inr p ↦ elim (Bool-cases (is_active pod)) [
          | inl a ↦ simp (p, a, sort_pods_lem pending bound items, append_assoc)
          | inr a ↦ simp (p, a, sort_pods_lem pending scheduled items)
        ]
      ]
