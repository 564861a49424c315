-- ===== src/FleetDevice/Kept.antt =====
-- internal/inverter/device/fleet.go: what the model was told of a device that is read, or commanded,
-- over restarts of its sidecar.
use ieee_2030_5_client_go.Shared.{
  ℕ, ◌≡◌, refl, sym, ◌∙◌, subst, true, false, not, List, Option, none, some, String, ◌⊎◌, inl, inr,
  arith, if◌then◌else◌, is_some, ℤ,
}
use ieee_2030_5_client_go.Shared.Float.{Float}
use ieee_2030_5_client_go.SafetyGuard.{ControlOutputs, InverterState}
use ieee_2030_5_client_go.FleetDevice.{
  FleetDevice, FleetError, Transport, Numerics, StateReading, sidecar_down, new_fleet_device,
  resync, apply_stepped, apply_written, apply_resynced, apply_fleet, remembered, read_fleet,
  read_resynced,
}
use ieee_2030_5_client_go.FleetDevice.Commanded.{
  Setpoint, Keeps, IsLawful, IsKnown, Keeps-IsKnown, resync-Resynced, ReadWell, read_fleet-ReadWell,
}
use ieee_2030_5_client_go.FleetDevice.Retold.{ReadTold, read_fleet-ReadTold}
use ieee_2030_5_client_go.FleetDevice.Applied.{AppliedWell, apply_fleet-AppliedWell}

module _ {W : Type 0} (t : Transport W) (commanded : W → Option Setpoint) where
  -- Which inverter the device drives does not change.
  remembered-obj :
      (c : ControlOutputs) (d : FleetDevice) (r : (InverterState ⊎ FleetError) × W)
      → (remembered t c d r).1.inverter_obj ≡ d.inverter_obj
  unfolding remembered
  remembered-obj c d (inl s, w) = refl
  remembered-obj c d (inr e, w) = refl

  apply_stepped-obj :
      (c : ControlOutputs) (d : FleetDevice) (r : Option ℤ × W)
      → (apply_stepped t c d r).1.inverter_obj ≡ d.inverter_obj
  unfolding apply_stepped
  apply_stepped-obj c d (none, w) = refl
  apply_stepped-obj c d (some time, w) = remembered-obj c d _

  apply_written-obj :
      (c : ControlOutputs) (now : ℤ) (d : FleetDevice) (r : Option (List Float) × W)
      → (apply_written t c now d r).1.inverter_obj ≡ d.inverter_obj
  unfolding apply_written
  apply_written-obj c now d (none, w) = refl
  apply_written-obj c now d (some vals, w) = apply_stepped-obj c d (t.step_to now w)

  apply_resynced-obj :
      (c : ControlOutputs) (now : ℤ) (r : Option FleetError × FleetDevice × W)
      → (apply_resynced t c now r).1.inverter_obj ≡ r.1.inverter_obj
  unfolding apply_resynced
  apply_resynced-obj c now (some e, d, w) = refl
  apply_resynced-obj c now (none, d, w) = apply_written-obj c now d _

  read_resynced-obj :
      (num : Numerics) (now : ℤ) (r : Option FleetError × FleetDevice × W)
      → (read_resynced t num now r).1.inverter_obj ≡ r.1.inverter_obj
  unfolding read_resynced
  read_resynced-obj num now (some e, d, w) = refl
  read_resynced-obj num now (none, d, w) = refl

  -- The device after ReadState, and after ApplySetpoint, with the world.
  abbrev pub after_read : Numerics → ℤ → ℤ → FleetDevice → W → FleetDevice × W
  after_read num now later d w = let (_, d', w') = read_fleet t num now later d w in (d', w')

  abbrev pub after_apply : ControlOutputs → ℤ → ℤ → FleetDevice → W → FleetDevice × W
  after_apply c now later d w = let (_, d', w') = apply_fleet t c now later d w in (d', w')

  -- The life of a device: the world goes on by itself, as by a restart, and the device is read and
  -- commanded.
  pub data Lives (num : Numerics) (d₀ : FleetDevice) (w₀ : W) : FleetDevice → W → Type 0 where
    born : Lives num d₀ w₀ d₀ w₀
    goes_on :
        {d : FleetDevice} {w : W} (w' : W)
        → Lives num d₀ w₀ d w
        → Keeps t commanded w w'
        → Lives num d₀ w₀ d w'
    is_read :
        {d : FleetDevice} {w : W} (now later : ℤ)
        → Lives num d₀ w₀ d w
        → Lives num d₀ w₀ (after_read num now later d w).0 (after_read num now later d w).1
    is_commanded :
        {d : FleetDevice} {w : W} (c : ControlOutputs) (now later : ℤ)
        → Lives num d₀ w₀ d w
        → Lives num d₀ w₀ (after_apply c now later d w).0 (after_apply c now later d w).1

  abbrev Known : String → FleetDevice → W → Type 0
  Known obj d w = (d.inverter_obj ≡ obj) × IsKnown t commanded d w

  ReadWell-IsKnown :
      (gen : ℕ) (r : (StateReading ⊎ FleetError) × FleetDevice × W)
      → ReadWell t commanded gen r
      → IsKnown t commanded r.1 r.2
  ReadWell-IsKnown gen (inr e, d, w) h = h
  ReadWell-IsKnown gen (inl x, d, w) h = h.0

  AppliedWell-IsKnown :
      (c : ControlOutputs) (gen : ℕ) (r : (InverterState ⊎ FleetError) × FleetDevice × W)
      → AppliedWell t commanded c gen r
      → IsKnown t commanded r.1 r.2
  AppliedWell-IsKnown c gen (inr e, d, w) h = h
  AppliedWell-IsKnown c gen (inl x, d, w) h = h.0

  read_fleet-obj :
      (num : Numerics) (now later : ℤ) (d : FleetDevice) (w : W)
      → IsLawful t commanded d.inverter_obj
      → IsKnown t commanded d w
      → (read_fleet t num now later d w).1.inverter_obj ≡ d.inverter_obj
  unfolding read_fleet
  read_fleet-obj num now later d w law h =
      elim (t.healthy w)
        as (λ b.
          (if not b
            then (inr sidecar_down, d, w)
            else read_resynced t num later (resync t now d w)).1.inverter_obj
          ≡ d.inverter_obj) [
            | true ↦
                read_resynced-obj num later (resync t now d w)
                ∙ (resync-Resynced t commanded now d w law h).3
            | false ↦ refl
          ]

  apply_fleet-obj :
      (c : ControlOutputs) (now later : ℤ) (d : FleetDevice) (w : W)
      → IsLawful t commanded d.inverter_obj
      → IsKnown t commanded d w
      → (apply_fleet t c now later d w).1.inverter_obj ≡ d.inverter_obj
  unfolding apply_fleet
  apply_fleet-obj c now later d w law h =
      elim (t.healthy w)
        as (λ b.
          (if not b
            then (inr sidecar_down, d, w)
            else apply_resynced t c later (resync t now d w)).1.inverter_obj
          ≡ d.inverter_obj) [
            | true ↦
                apply_resynced-obj c later (resync t now d w)
                ∙ (resync-Resynced t commanded now d w law h).3
            | false ↦ refl
          ]

  Lives-Known :
      (num : Numerics) (obj : String) (d₀ : FleetDevice) (w₀ : W) {d : FleetDevice} {w : W}
      → IsLawful t commanded obj
      → Known obj d₀ w₀
      → Lives num d₀ w₀ d w
      → Known obj d w
  Lives-Known num obj d₀ w₀ law k born = k
  Lives-Known num obj d₀ w₀ law k (goes_on {d = d} {w = w} w' l keeps) =
      let (o, h) = Lives-Known num obj d₀ w₀ law k l in
      (o, Keeps-IsKnown t commanded d w w' keeps h)
  Lives-Known num obj d₀ w₀ law k (is_read {d = d} {w = w} now later l) =
      let (o, h) = Lives-Known num obj d₀ w₀ law k l in
      let law' : IsLawful t commanded d.inverter_obj = subst (IsLawful t commanded) (sym o) law in
      (
        read_fleet-obj num now later d w law' h ∙ o,
        ReadWell-IsKnown (t.generation w) _
            (read_fleet-ReadWell t commanded num now later d w law' h),
      )
  Lives-Known num obj d₀ w₀ law k (is_commanded {d = d} {w = w} c now later l) =
      let (o, h) = Lives-Known num obj d₀ w₀ law k l in
      let law' : IsLawful t commanded d.inverter_obj = subst (IsLawful t commanded) (sym o) law in
      (
        apply_fleet-obj c now later d w law' h ∙ o,
        AppliedWell-IsKnown c (t.generation w) _
            (apply_fleet-AppliedWell t commanded c now later d w law' h),
      )

  new_fleet_device-Known :
      (obj meter : String) (d : FleetDevice) (w : W)
      → new_fleet_device obj meter ≡ some d
      → Known obj d w
  unfolding new_fleet_device
  new_fleet_device-Known obj meter d w h =
      let (same, none_yet, first) : (d.inverter_obj ≡ obj)
          × (is_some d.last_controls ≡ false)
          × (d.last_generation ≡ 0) =
        (ground arith, ground arith, ground arith) in
      (same, (omega (arith, first), λ has gen. absurd (cc)))

  -- In the life of a new device, over restarts of the sidecar at any time: where ReadState returns a
  -- reading, in the generation that it began in, the model of that generation has been told a setpoint
  -- if the device has ever reached one; and it holds the one that it held before, or, where the sidecar
  -- was started again since the device last spoke to it, the setpoint of the controls that the device
  -- remembers, if it does; where ApplySetpoint returns a state, the device remembers the
  -- controls, and the model, if it still is the one of that generation, holds their setpoint.
  pub Lives-ReadWell :
      (num : Numerics) (obj meter : String) (d₀ d : FleetDevice) (w₀ w : W) (c : ControlOutputs)
      (now later : ℤ)
      → IsLawful t commanded obj
      → new_fleet_device obj meter ≡ some d₀
      → Lives num d₀ w₀ d w
      → ReadWell t commanded (t.generation w) (read_fleet t num now later d w)
        × ReadTold t commanded d w (read_fleet t num now later d w)
        × AppliedWell t commanded c (t.generation w) (apply_fleet t c now later d w)
  Lives-ReadWell num obj meter d₀ d w₀ w c now later law new l =
      let (o, h) = Lives-Known num obj d₀ w₀ law (new_fleet_device-Known obj meter d₀ w₀ new) l in
      let law' : IsLawful t commanded d.inverter_obj = subst (IsLawful t commanded) (sym o) law in
      (
        read_fleet-ReadWell t commanded num now later d w law' h,
        read_fleet-ReadTold t commanded num now later d w law',
        apply_fleet-AppliedWell t commanded c now later d w law' h,
      )
