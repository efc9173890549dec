-- ===== src/Controller/Provisioning.antt =====
-- How often `handleScaleUp` calls the provisioner, and what it leaves behind.
use kubto.Prelude.{
  ℕ, zero, suc, ◌+◌, ◌-◌, ◌^◌, ◌<◌, ◌≤◌, ◌≡◌, refl, ap, ◌∙◌, inl, inr, arith, leb, add64, sub64,
  sub64_of_le, add64_of_lt, le64, lt64, sub_time, if◌then◌else◌, Bool-cases,
}
use kubto.Decision.{Decision}
use kubto.Provisioner.{Creation, created, creation_failed, NodeProvisioner}
use kubto.Controller.Scaling.{
  AutoscalerController, Attempts, note_creation, provision, unready_count, settle, handle_scale_up,
}

-- The provisioner's state after `n` calls of `CreateNode`.
abbrev pub after_creations : {W : Type 0} → NodeProvisioner W → ℕ → W → W
after_creations prov zero w = w
after_creations prov (suc n) w = after_creations prov n (prov.create_node w).1

le64-zero : (d a : ℕ) → d < 2 ^ 62 → a < 2 ^ 62 → le64 (sub64 d a) 0 ≡ leb d a
unfolding le64 sub64
le64-zero d a hd ha = ground arith

restored : (a n : ℕ) → a < 2 ^ 64 → n < 2 ^ 64 → sub64 (add64 a n) n ≡ a
unfolding sub64 add64
restored a n ha hn = omega arith

pub sub64-lt : (a b : ℕ) → sub64 a b < 2 ^ 64
unfolding sub64
sub64-lt a b = omega arith

module _ {W : Type 0} (prov : NodeProvisioner W) where
  note-world : (a : Attempts W) (r : Creation × W) → (note_creation a r).world ≡ r.1
  unfolding note_creation
  note-world a (created name, w) = refl
  note-world a (creation_failed e, w) = refl

  provision-world :
      (n : ℕ) (a : Attempts W) → (provision prov n a).world ≡ after_creations prov n a.world
  unfolding provision
  provision-world zero a = refl
  provision-world (suc n) a =
      provision-world n (note_creation a (prov.create_node a.world))
      ∙ ap (after_creations prov n) (note-world a (prov.create_node a.world))

  note-total :
      (a : Attempts W) (r : Creation × W)
      → a.success_count + a.failures + 1 < 2 ^ 64
      → ((note_creation a r).success_count + (note_creation a r).failures
          ≡ a.success_count + a.failures + 1)
        × (a.failures ≤ (note_creation a r).failures)
  unfolding note_creation add64
  note-total a (created name, w) fits = omega arith
  note-total a (creation_failed e, w) fits = omega arith

  -- Each of the `n` rounds of the provisioning loop counts as a success or as a failure, as long as
  -- the counters do not wrap.
  pub provision-total :
      (n : ℕ) (a : Attempts W)
      → a.success_count + a.failures + n < 2 ^ 64
      → ((provision prov n a).success_count + (provision prov n a).failures
          ≡ a.success_count + a.failures + n)
        × (a.failures ≤ (provision prov n a).failures)
  unfolding provision
  provision-total zero a fits = omega arith
  provision-total (suc n) a fits =
      let first = note-total a (prov.create_node a.world) (omega arith) in
      omega (
        arith,
        first,
        provision-total n (note_creation a (prov.create_node a.world)) (omega (arith, first)),
      )

  module _ {Q : Type 0} (now later : ℕ) (dec : Decision) (c : AutoscalerController Q) (w : W) where
    -- The decision's count less the nodes in flight and the nodes that are not ready, and 0 while
    -- the cooldown lasts.
    abbrev pub calls_wanted : ℕ
    calls_wanted =
        if lt64 (sub_time now c.last_scale_up) c.scale_up_cooldown
        then 0
        else dec.count - (c.in_flight_provisioning + unready_count c.state)

    -- For counts below 2 ^ 62, `handleScaleUp` calls `CreateNode` exactly once for each node that
    -- the decision asks for and that is neither in flight nor waiting to be ready, and not at all
    -- while the cooldown lasts.
    pub scale_up-calls :
        dec.count < 2 ^ 62
        → c.in_flight_provisioning + unready_count c.state < 2 ^ 62
        → (handle_scale_up prov now later dec c w).1 ≡ after_creations prov calls_wanted w
    unfolding handle_scale_up
    scale_up-calls hd hi =
        let open_nodes = c.in_flight_provisioning + unready_count c.state in
        let sum = add64_of_lt c.in_flight_provisioning (unready_count c.state) (omega arith) in
        elim (Bool-cases (lt64 (sub_time now c.last_scale_up) c.scale_up_cooldown)) [
          | inl cooling ↦ rw cooling refl
          | inr e ↦ elim (Bool-cases (leb dec.count open_nodes)) [
            | inl few ↦
                let no_calls : (dec.count - open_nodes ≡ 0) = ground arith in
                rw (e, sum, le64-zero dec.count open_nodes hd hi, few, no_calls) refl
            | inr more ↦
                rw
                  (
                    e,
                    sum,
                    le64-zero dec.count open_nodes hd hi,
                    more,
                    sub64_of_le dec.count open_nodes (ground arith) (omega arith),
                  )
                  (provision-world (dec.count - open_nodes) _)
          ]
        ]

    settle-in_flight :
        (a : Attempts W) (c : AutoscalerController Q)
        → (settle later a c).in_flight_provisioning ≡ c.in_flight_provisioning
    unfolding settle
    settle-in_flight a c = ground arith

    -- `handleScaleUp` leaves the number of nodes in flight as it found it.
    pub scale_up-in_flight :
        c.in_flight_provisioning < 2 ^ 64
        → (handle_scale_up prov now later dec c w).0.in_flight_provisioning
          ≡ c.in_flight_provisioning
    unfolding handle_scale_up
    scale_up-in_flight h =
        let n = sub64 dec.count (add64 c.in_flight_provisioning (unready_count c.state)) in
        elim (Bool-cases (lt64 (sub_time now c.last_scale_up) c.scale_up_cooldown)) [
          | inl cooling ↦ rw cooling refl
          | inr e ↦ elim (Bool-cases (le64 n 0)) [
            | inl few ↦ rw (e, few) refl
            | inr more ↦
                rw (e, more)
                  (settle-in_flight _ _ ∙ restored c.in_flight_provisioning n h (sub64-lt _ _))
          ]
        ]
