-- ===== src/FleetDevice/Retold.antt =====
-- ReadState of internal/inverter/device/fleet.go: what the model holds of a device that was read.
use ieee_2030_5_client_go.Shared.{
  ℕ, ◌≤◌, ◌≡◌, ◌≢◌, refl, sym, ◌∙◌, ap, Bool, true, false, not, List, Option, none, some, ◌⊎◌, inl,
  inr, arith, if◌then◌else◌, is_some, ℤ, ◌==◌,
}
use ieee_2030_5_client_go.Shared.Float.{Float}
use ieee_2030_5_client_go.SafetyGuard.{ControlOutputs}
use ieee_2030_5_client_go.FleetDevice.{
  FleetDevice, FleetError, Transport, Numerics, StateReading, commands, resync_stepped,
  resync_written, resync_with, resync, read_resynced, read_fleet, state_items, state_reading,
  sidecar_down,
}
use ieee_2030_5_client_go.FleetDevice.Commanded.{Setpoint, setpoint_of, Keeps, Writes, IsLawful}

module _ {W : Type 0} (t : Transport W) (commanded : W → Option Setpoint) where
  -- From `w` on, without a restart: the model holds the setpoint that it held, if the device has spoken
  -- to this generation before, and else the one of the controls that the device remembers.
  abbrev pub IsTold : FleetDevice → W → W → Type 0
  IsTold d w w' =
      t.generation w' ≡ t.generation w
      → (t.generation w ≡ d.last_generation → commanded w' ≡ commanded w)
        × ((c : ControlOutputs)
            → d.last_controls ≡ some c
            → t.generation w ≢ d.last_generation
            → commanded w' ≡ some (setpoint_of c))

  abbrev Retold : FleetDevice → W → Option FleetError × FleetDevice × W → Type 0
  Retold d w (some e, d', w') = Unit
  Retold d w (none, d', w') = (t.generation w ≤ t.generation w') × IsTold d w w'

  resync_stepped-Retold :
      (c : ControlOutputs) (gen : ℕ) (d : FleetDevice) (w w₁ : W) (r : Option ℤ × W)
      → d.last_controls ≡ some c
      → not (t.generation w == d.last_generation) ≡ true
      → t.generation w ≤ t.generation w₁
      → (t.generation w₁ ≡ t.generation w → commanded w₁ ≡ some (setpoint_of c))
      → Keeps t commanded w₁ r.1
      → Retold d w (resync_stepped t gen d r)
  unfolding resync_stepped
  resync_stepped-Retold c gen d w w₁ (none, w₂) o stale up told k = tt
  resync_stepped-Retold c gen d w w₁ (some now, w₂) o stale up told k = (
    omega (arith, up, k.0),
    λ same. (
      λ known. absurd (ground (arith, stale, known)),
      λ c' o' fresh.
          let alike : c ≡ c' = cc in
          let first : t.generation w₁ ≡ t.generation w = omega (arith, up, k.0, same) in
          k.1 (same ∙ sym first) ∙ told first ∙ ap (λ x. some (setpoint_of x)) alike,
    ),
  )

  resync_written-Retold :
      (c : ControlOutputs) (now : ℤ) (gen : ℕ) (d : FleetDevice) (w : W)
      (r : Option (List Float) × W)
      → IsLawful t commanded d.inverter_obj
      → d.last_controls ≡ some c
      → not (t.generation w == d.last_generation) ≡ true
      → Writes t commanded w r.1
      → (is_some r.0 ≡ true
          → t.generation r.1 ≡ t.generation w
          → commanded r.1 ≡ some (setpoint_of c))
      → Retold d w (resync_written t now gen d r)
  unfolding resync_written
  resync_written-Retold c now gen d w (none, w₁) law o stale k told = tt
  resync_written-Retold c now gen d w (some vals, w₁) law o stale k told =
      resync_stepped-Retold c gen d w w₁ (t.step_to now w₁) o stale k.0 (told refl)
        (law.stepping now w₁)

  resync_with-Retold :
      (now : ℤ) (gen : ℕ) (stale : Bool) (o : Option ControlOutputs) (d : FleetDevice) (w : W)
      → IsLawful t commanded d.inverter_obj
      → not (t.generation w == d.last_generation) ≡ stale
      → d.last_controls ≡ o
      → Retold d w (resync_with t now gen stale o d w)
  unfolding resync_with
  resync_with-Retold now gen stale none d w law s o =
      (omega arith, λ same. ((λ known. refl), λ c o' fresh. absurd (cc)))
  resync_with-Retold now gen false (some c) d w law s o =
      (omega arith, λ same. ((λ known. refl), λ c' o' fresh. absurd (ground (arith, s, fresh))))
  resync_with-Retold now gen true (some c) d w law s o =
      resync_written-Retold c now gen d w (t.set (commands d.inverter_obj c) w) law o s
        (law.writing c w) (law.written c w)

  Keeps-IsTold :
      (d : FleetDevice) (w w₁ w₂ : W)
      → t.generation w ≤ t.generation w₁
      → Keeps t commanded w₁ w₂
      → IsTold d w w₁
      → IsTold d w w₂
  Keeps-IsTold d w w₁ w₂ up k h same =
      let first : t.generation w₁ ≡ t.generation w = omega (arith, up, k.0, same) in
      let still = k.1 (same ∙ sym first) in
      ((λ known. still ∙ (h first).0 known), λ c o fresh. still ∙ (h first).1 c o fresh)

  -- Where ReadState returns a reading.
  abbrev pub ReadTold : FleetDevice → W → (StateReading ⊎ FleetError) × FleetDevice × W → Type 0
  ReadTold d w (inr e, d', w') = Unit
  ReadTold d w (inl reading, d', w') = IsTold d w w'

  read_got :
      (res : StateReading ⊎ FleetError) (d d' : FleetDevice) (w w' : W)
      → IsTold d w w'
      → ReadTold d w (res, d', w')
  read_got (inr e) d d' w w' h = tt
  read_got (inl reading) d d' w w' h = h

  read_resynced-ReadTold :
      (num : Numerics) (now : ℤ) (d : FleetDevice) (w : W) (r : Option FleetError × FleetDevice × W)
      → IsLawful t commanded d.inverter_obj
      → Retold d w r
      → ReadTold d w (read_resynced t num now r)
  unfolding read_resynced
  read_resynced-ReadTold num now d w (some e, d', w₁) law h = tt
  read_resynced-ReadTold num now d w (none, d', w₁) law h =
      let items = state_items d' in
      read_got (state_reading num now (t.get items w₁).0) d d' w (t.get items w₁).1
        (Keeps-IsTold d w w₁ (t.get items w₁).1 h.0 (law.getting items w₁) h.1)

  pub read_fleet-ReadTold :
      (num : Numerics) (now later : ℤ) (d : FleetDevice) (w : W)
      → IsLawful t commanded d.inverter_obj
      → ReadTold d w (read_fleet t num now later d w)
  unfolding read_fleet resync
  read_fleet-ReadTold num now later d w law =
      elim (t.healthy w)
        as (λ b. ReadTold d w (
          if not b
          then (inr sidecar_down, d, w)
          else read_resynced t num later (resync t now d w))) [
            | true ↦ read_resynced-ReadTold num later d w (resync t now d w) law (
                resync_with-Retold now (t.generation w) (not (t.generation w == d.last_generation))
                  d.last_controls d w law refl refl)
            | false ↦ tt
          ]
