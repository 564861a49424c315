-- ===== src/FleetDevice/Applied.antt =====
-- ApplySetpoint of internal/inverter/device/fleet.go, from the resync to the state it returns.
use ieee_2030_5_client_go.Shared.{
  ℕ, ◌≡◌, refl, sym, ◌∙◌, subst, true, false, not, List, Option, none, some, ◌⊎◌, inl, inr, arith,
  if◌then◌else◌, is_some, ℤ,
}
use ieee_2030_5_client_go.Shared.Float.{Float}
use ieee_2030_5_client_go.SafetyGuard.{ControlOutputs, InverterState}
use ieee_2030_5_client_go.FleetDevice.{
  FleetDevice, FleetError, Transport, sidecar_down, commands, power_items, resync, apply_stepped,
  apply_written, apply_resynced, apply_fleet, remembered, achieved,
}
use ieee_2030_5_client_go.FleetDevice.Commanded.{
  Setpoint, setpoint_of, Keeps, Writes, IsLawful, IsKnown, Keeps-IsKnown, Writes-IsKnown, Resynced,
  resync-Resynced,
}

module _ {W : Type 0} (t : Transport W) (commanded : W → Option Setpoint) where
  -- What ApplySetpoint leaves, and what holds where it returns a state.
  abbrev pub AppliedWell :
      ControlOutputs → ℕ → (InverterState ⊎ FleetError) × FleetDevice × W → Type 0
  AppliedWell c gen (inr e, d, w) = IsKnown t commanded d w
  AppliedWell c gen (inl s, d, w) =
      IsKnown t commanded d w
      × (d.last_controls ≡ some c)
      × (t.generation w ≡ gen → commanded w ≡ some (setpoint_of c))

  -- The setpoint that was written stands, in the generation the device has resynced to.
  abbrev Told : ControlOutputs → ℕ → FleetDevice → W → Type 0
  Told c gen d w =
      IsKnown t commanded d w
      × (d.last_generation ≡ gen)
      × (t.generation w ≡ gen → commanded w ≡ some (setpoint_of c))

  Keeps-Told :
      (c : ControlOutputs) (gen : ℕ) (d : FleetDevice) (w w' : W)
      → Keeps t commanded w w'
      → Told c gen d w
      → Told c gen d w'
  Keeps-Told c gen d w w' k h = (
    Keeps-IsKnown t commanded d w w' k h.0,
    h.1,
    λ same.
        let still : t.generation w' ≡ t.generation w = omega (arith, k.0, h.0.0, h.1, same) in
        k.1 still ∙ h.2 (sym still ∙ same),
  )

  remembered-AppliedWell :
      (c : ControlOutputs) (gen : ℕ) (d : FleetDevice) (res : InverterState ⊎ FleetError) (w : W)
      → Told c gen d w
      → AppliedWell c gen (remembered t c d (res, w))
  unfolding remembered
  remembered-AppliedWell c gen d (inr e) w h = h.0
  remembered-AppliedWell c gen d (inl s) w h =
      ((h.0.0, λ has same. rw (h.2 (same ∙ h.1)) refl), refl, h.2)

  apply_stepped-AppliedWell :
      (c : ControlOutputs) (gen : ℕ) (d : FleetDevice) (r : Option ℤ × W)
      → IsLawful t commanded d.inverter_obj
      → Told c gen d r.1
      → AppliedWell c gen (apply_stepped t c d r)
  unfolding apply_stepped
  apply_stepped-AppliedWell c gen d (none, w) law h = h.0
  apply_stepped-AppliedWell c gen d (some time, w) law h =
      let items = power_items d in
      remembered-AppliedWell c gen d (achieved c time (t.get items w).0) (t.get items w).1
        (Keeps-Told c gen d w (t.get items w).1 (law.getting items w) h)

  apply_written-AppliedWell :
      (c : ControlOutputs) (now : ℤ) (gen : ℕ) (d : FleetDevice) (w : W)
      (r : Option (List Float) × W)
      → IsLawful t commanded d.inverter_obj
      → IsKnown t commanded d w
      → d.last_generation ≡ gen
      → Writes t commanded w r.1
      → (is_some r.0 ≡ true
          → t.generation r.1 ≡ t.generation w
          → commanded r.1 ≡ some (setpoint_of c))
      → AppliedWell c gen (apply_written t c now d r)
  unfolding apply_written
  apply_written-AppliedWell c now gen d w (none, w') law h g k told =
      Writes-IsKnown t commanded d w w' k h
  apply_written-AppliedWell c now gen d w (some vals, w') law h g k told =
      let here : Told c gen d w' = (
        Writes-IsKnown t commanded d w w' k h,
        g,
        λ same. told refl (omega (arith, k.0, h.0, g, same)),
      ) in
      apply_stepped-AppliedWell c gen d (t.step_to now w') law
        (Keeps-Told c gen d w' (t.step_to now w').1 (law.stepping now w') here)

  apply_resynced-AppliedWell :
      (c : ControlOutputs) (now : ℤ) (gen : ℕ) (d : FleetDevice)
      (r : Option FleetError × FleetDevice × W)
      → IsLawful t commanded d.inverter_obj
      → Resynced t commanded gen d r
      → AppliedWell c gen (apply_resynced t c now r)
  unfolding apply_resynced
  apply_resynced-AppliedWell c now gen d (some e, d', w) law h = h.0
  apply_resynced-AppliedWell c now gen d (none, d', w) law h =
      let law' : IsLawful t commanded d'.inverter_obj =
        subst (IsLawful t commanded) (sym h.3) law in
      apply_written-AppliedWell c now gen d' w (t.set (commands d'.inverter_obj c) w) law' h.0
        (h.4 refl) (law'.writing c w) (law'.written c w)

  pub apply_fleet-AppliedWell :
      (c : ControlOutputs) (now later : ℤ) (d : FleetDevice) (w : W)
      → IsLawful t commanded d.inverter_obj
      → IsKnown t commanded d w
      → AppliedWell c (t.generation w) (apply_fleet t c now later d w)
  unfolding apply_fleet
  apply_fleet-AppliedWell c now later d w law h =
      elim (t.healthy w)
        as (λ b. AppliedWell c (t.generation w) (
          if not b
          then (inr sidecar_down, d, w)
          else apply_resynced t c later (resync t now d w))) [
            | true ↦
                apply_resynced-AppliedWell c later (t.generation w) d (resync t now d w) law
                  (resync-Resynced t commanded now d w law h)
            | false ↦ h
          ]
