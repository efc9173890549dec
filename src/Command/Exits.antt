-- ===== src/Command/Exits.antt =====
-- Which configuration is used, and when the process ends well.
use kubto.Prelude.{
  ◌≡◌, ◌≢◌, ◌↔◌, ◌∙◌, ◌⊎◌, inl, inr, refl, Option, none, some, String, str_eq, str_eq_iff,
  Bool-cases,
}
use kubto.Command.{
  Error, canceled, failure, Fallible, got, fails, Libraries, Flags, exit_status, ending_of,
  build_config, main,
}

-- The first of the sources that applies gives the configuration: the file of the flag, if the flag
-- is set; the cluster's account, if it is there; or else the default file.
abbrev pub ComesFrom : {C K : Type 0} → Libraries C K → String → C → Type 0
ComesFrom lib kubeconfig cfg =
    ((kubeconfig ≢ "") × (lib.build_config_from_flags "" kubeconfig ≡ got cfg))
    ⊎ ((kubeconfig ≡ "")
        × ((lib.in_cluster_config ≡ got cfg)
            ⊎ (((e : Error) × (lib.in_cluster_config ≡ fails e))
                × (lib.build_config_from_flags "" lib.recommended_home_file ≡ got cfg))))

module _ {C K : Type 0} (lib : Libraries C K) where
  Fallible-cases :
      {A : Type 0} (x : Fallible A) → ((a : A) × (x ≡ got a)) ⊎ ((e : Error) × (x ≡ fails e))
  Fallible-cases (got a) = inl (a, refl)
  Fallible-cases (fails e) = inr (e, refl)

  build_config-ComesFrom :
      (kubeconfig : String) (cfg : C)
      → build_config lib kubeconfig ≡ got cfg
      → ComesFrom lib kubeconfig cfg
  unfolding build_config
  build_config-ComesFrom kubeconfig cfg h = elim (Bool-cases (str_eq kubeconfig "")) [
    | inr set ↦ inl (λ e. cc ((str_eq_iff kubeconfig "").1 e, set), rw set at h)
    | inl unset ↦ inr (
      (str_eq_iff kubeconfig "").0 unset,
      elim (Fallible-cases lib.in_cluster_config) [
        | inl (c, found) ↦ inl (found ∙ (rw (unset, found) at h))
        | inr (e, missing) ↦ inr ((e, missing), rw (unset, missing) at h)
      ],
    )
  ]

  ComesFrom-build_config :
      (kubeconfig : String) (cfg : C)
      → ComesFrom lib kubeconfig cfg
      → build_config lib kubeconfig ≡ got cfg
  unfolding build_config
  ComesFrom-build_config kubeconfig cfg (inl (set, found)) =
      elim (Bool-cases (str_eq kubeconfig "")) [
        | inl unset ↦ absurd (set ((str_eq_iff kubeconfig "").0 unset))
        | inr e ↦ rw e found
      ]
  ComesFrom-build_config kubeconfig cfg (inr (unset, inl found)) =
      rw ((str_eq_iff kubeconfig "").1 unset, found) refl
  ComesFrom-build_config kubeconfig cfg (inr (unset, inr ((e, missing), found))) =
      rw ((str_eq_iff kubeconfig "").1 unset, missing) found

  -- The client and the controller do their part: the run returns no error but a cancellation.
  abbrev pub RunsWell : C → Type 0
  RunsWell cfg =
      (client : K) × (lib.new_for_config cfg ≡ got client)
      × ((lib.run client ≡ none) ⊎ (lib.run client ≡ some canceled))

  ending_of-zero :
      (o : Option Error) → exit_status (ending_of o) ≡ 0 → (o ≡ none) ⊎ (o ≡ some canceled)
  ending_of-zero none z = inl refl
  ending_of-zero (some canceled) z = inr refl
  ending_of-zero (some (failure e)) z = cc

  main-runs :
      (flags : Flags)
      → exit_status (main lib flags).1 ≡ 0
      → (cfg : C) × ComesFrom lib flags.kubeconfig cfg × RunsWell cfg
  unfolding main
  main-runs flags z = elim (Fallible-cases (build_config lib flags.kubeconfig)) [
    | inr (e, none_built) ↦ cc (rw (main, none_built) at z)
    | inl (cfg, built) ↦ elim (Fallible-cases (lib.new_for_config cfg)) [
      | inr (e, unmade) ↦ cc (rw (main, built, unmade) at z)
      | inl (client, made) ↦ (
        cfg,
        build_config-ComesFrom flags.kubeconfig cfg built,
        (client, made, ending_of-zero (lib.run client) (rw (main, built, made) at z)),
      )
    ]
  ]

  runs-main :
      (flags : Flags) (cfg : C)
      → ComesFrom lib flags.kubeconfig cfg
      → RunsWell cfg
      → exit_status (main lib flags).1 ≡ 0
  unfolding main
  runs-main flags cfg from (client, made, inl fine) =
      rw (main, ComesFrom-build_config flags.kubeconfig cfg from, made, fine) refl
  runs-main flags cfg from (client, made, inr cut) =
      rw (main, ComesFrom-build_config flags.kubeconfig cfg from, made, cut) refl

  -- The process ends with status 0 exactly when one of the sources gives a configuration, in their
  -- order of precedence, a client can be made from it, and the controller returns with no error or
  -- because its context was cancelled. It does not depend on the address of the metrics server.
  pub main_exits_cleanly_iff :
      (flags : Flags)
      → (exit_status (main lib flags).1 ≡ 0)
        ↔ ((cfg : C) × ComesFrom lib flags.kubeconfig cfg × RunsWell cfg)
  main_exits_cleanly_iff flags =
      (main-runs flags, λ h. let (cfg, from, well) = h in runs-main flags cfg from well)
