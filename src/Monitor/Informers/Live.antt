-- ===== src/Monitor/Informers/Live.antt =====
-- The cluster state has the pods that the API has, each once, whatever order the cache lists.
use mathlib.Core.List.{Permᴰ}
use mathlib.Core.List.Permᴰ
use kubto.Prelude.{
  ◌≡◌, refl, subst, Bool, not, ◌&&◌, Option, none, some, List, [], ◌∷◌, map, str_eq, select,
  if◌then◌else◌, arith,
}
use kubto.Platform.{Quantity}
use kubto.Kube.{Pod}
use kubto.Monitor.Types.{PodInfo, ClusterState, new_cluster_state}
use kubto.Monitor.Watchers.{is_pending, is_active, pod_to_info}
use kubto.Monitor.Watchers.Sorted.{infos_of}
use kubto.Monitor.Watchers.Latest.{sync-Shows, change-Shows, delete-Shows}
use kubto.Monitor.Informers.{
  Store, Watchers, new_watchers, Notice, pod_added, pod_updated, pod_deleted, node_added,
  node_updated, node_removed, sync_store, deliver, deliver_all,
}

module _ {B : Type 0} where
  abbrev prepend : Option B → List B → List B
  prepend none ys = ys
  prepend (some y) ys = y ∷ ys

  prepend-perm : (o : Option B) (xs ys : List B) → Permᴰ xs ys → Permᴰ (prepend o xs) (prepend o ys)
  prepend-perm none xs ys d = d
  prepend-perm (some y) xs ys d = Permᴰ.cons refl d

  prepend_swap :
      (o p : Option B) (ys : List B) → Permᴰ (prepend o (prepend p ys)) (prepend p (prepend o ys))
  prepend_swap none p ys = Permᴰ.refl _
  prepend_swap (some x) none ys = Permᴰ.refl _
  prepend_swap (some x) (some y) ys = Permᴰ.swap refl refl

module _ {A B : Type 0} where
  -- The values that a function has, in order.
  abbrev collect : (A → Option B) → List A → List B
  collect f [] = []
  collect f (x ∷ xs) = prepend (f x) (collect f xs)

  collect-perm :
      (f : A → Option B) (xs ys : List A) → Permᴰ xs ys → Permᴰ (collect f xs) (collect f ys)
  collect-perm f _ _ Permᴰ.nil = Permᴰ.nil
  collect-perm f _ _ (Permᴰ.cons {a = a} {l₁ = xs} {l₂ = ys} e d) =
      subst (λ y. Permᴰ (collect f (a ∷ xs)) (collect f (y ∷ ys))) e
        (prepend-perm (f a) (collect f xs) (collect f ys) (collect-perm f xs ys d))
  collect-perm f _ _ (Permᴰ.swap {a = a} {b = b} {a' = a'} {l = xs} e d) =
      subst (λ y. Permᴰ (collect f (a ∷ b ∷ xs)) (collect f (a' ∷ y ∷ xs))) e
        (subst (λ y. Permᴰ (collect f (a ∷ b ∷ xs)) (collect f (y ∷ a ∷ xs))) d
          (prepend_swap (f a) (f b) (collect f xs)))
  collect-perm f xs zs (Permᴰ.trans {l₂ = ys} c d) =
      Permᴰ.trans (collect-perm f xs ys c) (collect-perm f ys zs d)

module _ {Q : Type 0} where
  abbrev same_key : Pod Q → Pod Q → Bool
  same_key p r = str_eq p.namespace r.namespace && str_eq p.name r.name

  -- The pods of another namespace or name.
  abbrev pub without : Pod Q → List (Pod Q) → List (Pod Q)
  without p ps = select (λ r. not (same_key p r)) ps

  -- The pods that the API has after these notices, by their namespace and name.
  abbrev pub live : List (Pod Q) → List (Notice Q) → List (Pod Q)
  live ps [] = ps
  live ps (pod_added p ∷ ns) = live (p ∷ without p ps) ns
  live ps (pod_updated old new ∷ ns) = live (new ∷ without new ps) ns
  live ps (pod_deleted p ∷ ns) = live (without p ps) ns
  live ps (node_added n ∷ ns) = live ps ns
  live ps (node_updated old new ∷ ns) = live ps ns
  live ps (node_removed d ∷ ns) = live ps ns

  -- What client-go documents of a cache: it has the last object put there under each key that was
  -- not dropped since, and lists them in any order.
  pub record IsStore {S : Type 0} (store : Store Q S) (empty : S) : Type 0 where
    pub list-empty : store.list empty ≡ []
    pub list-put :
        (p : Pod Q) (s : S) → Permᴰ (store.list (store.put p s)) (p ∷ without p (store.list s))
    pub list-drop :
        (p : Pod Q) (s : S) → Permᴰ (store.list (store.drop p s)) (without p (store.list s))

  abbrev if_kept : Pod Q → Pod Q → Option (Pod Q)
  if_kept p r = if same_key p r then none else some r

  without-eq-collect : (p : Pod Q) (ps : List (Pod Q)) → without p ps ≡ collect (if_kept p) ps
  without-eq-collect p [] = refl
  without-eq-collect p (r ∷ ps) = ground (arith, without-eq-collect p ps)

  without-perm :
      (p : Pod Q) (ps rs : List (Pod Q)) → Permᴰ ps rs → Permᴰ (without p ps) (without p rs)
  without-perm p ps rs d =
      rw (without-eq-collect p ps, without-eq-collect p rs) (collect-perm (if_kept p) ps rs d)

module _ {Q : Type 0} ⦃q : Quantity Q⦄ where
  -- The entries that `sync` makes of the pods that pass a test.
  abbrev pub entries_of : (Pod Q → Bool) → List (Pod Q) → List (PodInfo Q)
  entries_of test ps = infos_of test (map some ps)

  abbrev if_passes : (Pod Q → Bool) → Pod Q → Option (PodInfo Q)
  if_passes test p = if test p then some (pod_to_info (some p)) else none

  entries-eq-collect :
      (test : Pod Q → Bool) (ps : List (Pod Q)) → entries_of test ps ≡ collect (if_passes test) ps
  entries-eq-collect test [] = refl
  entries-eq-collect test (p ∷ ps) = ground (arith, entries-eq-collect test ps)

  entries-perm :
      (test : Pod Q → Bool) (ps rs : List (Pod Q))
      → Permᴰ ps rs
      → Permᴰ (entries_of test ps) (entries_of test rs)
  entries-perm test ps rs d =
      rw (entries-eq-collect test ps, entries-eq-collect test rs)
        (collect-perm (if_passes test) ps rs d)

  -- The store has the live pods, and the state has the entries of those that it sorts.
  record Reflects {S : Type 0} (store : Store Q S) (ps : List (Pod Q)) (w : Watchers Q S)
      : Type 0 where
    stored : Permᴰ (store.list w.store) ps
    pending : Permᴰ w.state.pending_pods (entries_of is_pending ps)
    scheduled : Permᴰ w.state.scheduled_pods (entries_of is_active ps)

  module _ {S : Type 0} (store : Store Q S) (empty : S) (law : IsStore store empty) where
    sync_store-Reflects :
        (s : S) (state : ClusterState Q) (ps : List (Pod Q))
        → Permᴰ (store.list s) ps
        → Reflects store ps (sync_store store (record { store = s; state = state }))
    unfolding sync_store
    sync_store-Reflects s state ps d =
        let (pending, scheduled, _) = sync-Shows "" (map some (store.list s)) state in
        record {
          stored = d;
          pending = rw pending (entries-perm is_pending (store.list s) ps d);
          scheduled = rw scheduled (entries-perm is_active (store.list s) ps d);
        }

    nodes_changed-Reflects :
        (t : ClusterState Q) (ps : List (Pod Q)) (w : Watchers Q S)
        → t.pending_pods ≡ w.state.pending_pods
        → t.scheduled_pods ≡ w.state.scheduled_pods
        → Reflects store ps w
        → Reflects store ps (record w { state = t })
    nodes_changed-Reflects t ps w pending scheduled r = record {
      stored = r.stored;
      pending = rw pending r.pending;
      scheduled = rw scheduled r.scheduled;
    }

    deliver_all-Reflects :
        (ns : List (Notice Q)) (ps : List (Pod Q)) (w : Watchers Q S)
        → Reflects store ps w
        → Reflects store (live ps ns) (deliver_all store w ns)
    unfolding deliver
    deliver_all-Reflects [] ps w r = r
    deliver_all-Reflects (pod_added p ∷ ns) ps w r = deliver_all-Reflects ns (p ∷ without p ps) _ (
        sync_store-Reflects (store.put p w.store) w.state (p ∷ without p ps) (
          Permᴰ.trans (law.list-put p w.store)
            (Permᴰ.cons refl (without-perm p (store.list w.store) ps r.stored))))
    deliver_all-Reflects (pod_updated old new ∷ ns) ps w r =
        deliver_all-Reflects ns (new ∷ without new ps) _ (
          sync_store-Reflects (store.put new w.store) w.state (new ∷ without new ps) (
            Permᴰ.trans (law.list-put new w.store)
              (Permᴰ.cons refl (without-perm new (store.list w.store) ps r.stored))))
    deliver_all-Reflects (pod_deleted p ∷ ns) ps w r = deliver_all-Reflects ns (without p ps) _ (
        sync_store-Reflects (store.drop p w.store) w.state (without p ps)
          (Permᴰ.trans (law.list-drop p w.store) (without-perm p (store.list w.store) ps r.stored)))
    deliver_all-Reflects (node_added n ∷ ns) ps w r =
        let (pending, scheduled, _) = change-Shows "" n w.state in
        deliver_all-Reflects ns ps _ (nodes_changed-Reflects _ ps w pending scheduled r)
    deliver_all-Reflects (node_updated old n ∷ ns) ps w r =
        let (pending, scheduled, _) = change-Shows "" n w.state in
        deliver_all-Reflects ns ps _ (nodes_changed-Reflects _ ps w pending scheduled r)
    deliver_all-Reflects (node_removed d ∷ ns) ps w r =
        let (pending, scheduled, _) = delete-Shows "" d w.state in
        deliver_all-Reflects ns ps _ (nodes_changed-Reflects _ ps w pending scheduled r)

    -- Whatever order the cache lists its pods in: after any notices, the pending pods of the
    -- cluster state are, up to their order, the entries of the API's live pods that are pending,
    -- and the scheduled pods those that are bound to a node and not finished.
    pub delivered-Live :
        (ns : List (Notice Q))
        → let w = deliver_all store (new_watchers empty (new_cluster_state Q)) ns in
          Permᴰ w.state.pending_pods (entries_of is_pending (live [] ns))
          × Permᴰ w.state.scheduled_pods (entries_of is_active (live [] ns))
    unfolding new_cluster_state
    delivered-Live ns =
        let none_stored : Permᴰ (store.list empty) [] = rw law.list-empty Permᴰ.nil in
        let r =
          deliver_all-Reflects ns [] (new_watchers empty (new_cluster_state Q))
            (record { stored = none_stored; pending = Permᴰ.nil; scheduled = Permᴰ.nil }) in
        (r.pending, r.scheduled)
