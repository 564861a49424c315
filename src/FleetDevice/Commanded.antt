-- ===== src/FleetDevice/Commanded.antt =====
-- internal/inverter/device/fleet.go: what the model behind the transport was last told of a device,
-- through the calls of one operation. A sidecar may be started again during any of them.
use ieee_2030_5_client_go.Shared.{
  ℕ, ◌≤◌, ◌≡◌, refl, sym, ◌∙◌, Bool, true, false, not, List, Option, none, some, String, ◌⊎◌, inl,
  inr, arith, if◌then◌else◌, is_some, ℤ, ◌==◌,
}
use ieee_2030_5_client_go.Shared.Float.{Float}
use ieee_2030_5_client_go.SafetyGuard.{ControlOutputs}
use ieee_2030_5_client_go.FleetDevice.{
  FleetDevice, FleetGetItem, FleetError, Transport, Numerics, StateReading, commands,
  resync_stepped, resync_written, resync_with, resync, read_resynced, read_fleet, state_items,
  state_reading, sidecar_down,
}

-- The setpoint of a device.
abbrev pub Setpoint : Type 0
Setpoint = Float × Float

abbrev pub setpoint_of : ControlOutputs → Setpoint
setpoint_of c = (c.active_power_w, c.reactive_power_var)

module _ {W : Type 0} (t : Transport W) (commanded : W → Option Setpoint) where
  -- The world goes on: the generation does not fall, and while it is the same, the model keeps the
  -- setpoint that it was told.
  abbrev pub Keeps : W → W → Type 0
  Keeps w w' =
      (t.generation w ≤ t.generation w')
      × (t.generation w' ≡ t.generation w → commanded w' ≡ commanded w)

  -- The same of a write, whose outcome is unknown if it fails: a setpoint stays a setpoint.
  abbrev pub Writes : W → W → Type 0
  Writes w w' =
      (t.generation w ≤ t.generation w')
      × (t.generation w' ≡ t.generation w
          → is_some (commanded w) ≡ true
          → is_some (commanded w') ≡ true)

  -- What the transport promises for the inverter of a device.
  pub record IsLawful (obj : String) : Type 0 where
    pub stepping : (now : ℤ) (w : W) → Keeps w (t.step_to now w).1
    pub getting : (items : List FleetGetItem) (w : W) → Keeps w (t.get items w).1
    pub writing : (c : ControlOutputs) (w : W) → Writes w (t.set (commands obj c) w).1
    pub written :
        (c : ControlOutputs) (w : W)
        → is_some (t.set (commands obj c) w).0 ≡ true
        → t.generation (t.set (commands obj c) w).1 ≡ t.generation w
        → commanded (t.set (commands obj c) w).1 ≡ some (setpoint_of c)

  -- In the generation that the device has last spoken to, a device that remembers controls has been
  -- told a setpoint.
  abbrev pub IsKnown : FleetDevice → W → Type 0
  IsKnown d w =
      (d.last_generation ≤ t.generation w)
      × (is_some d.last_controls ≡ true
          → t.generation w ≡ d.last_generation
          → is_some (commanded w) ≡ true)

  pub Keeps-IsKnown : (d : FleetDevice) (w w' : W) → Keeps w w' → IsKnown d w → IsKnown d w'
  Keeps-IsKnown d w w' k h = (
    omega (arith, k.0, h.0),
    λ has same.
        let still : t.generation w' ≡ t.generation w = omega (arith, k.0, h.0, same) in
        rw (k.1 still) (h.1 has (omega (arith, still, same))),
  )

  pub Writes-IsKnown : (d : FleetDevice) (w w' : W) → Writes w w' → IsKnown d w → IsKnown d w'
  Writes-IsKnown d w w' k h = (
    omega (arith, k.0, h.0),
    λ has same.
        let still : t.generation w' ≡ t.generation w = omega (arith, k.0, h.0, same) in
        k.1 still (h.1 has (omega (arith, still, same))),
  )

  -- What a resync leaves: the device as known, and after a success in step with the generation that
  -- it began in.
  abbrev pub Resynced : ℕ → FleetDevice → Option FleetError × FleetDevice × W → Type 0
  Resynced gen d (e, d', w') =
      IsKnown d' w'
      × (gen ≤ t.generation w')
      × (d'.last_controls ≡ d.last_controls)
      × (d'.inverter_obj ≡ d.inverter_obj)
      × (e ≡ none → d'.last_generation ≡ gen)

  resync_stepped-Resynced :
      (gen : ℕ) (d : FleetDevice) (c : Setpoint) (r : Option ℤ × W) (w : W)
      → IsKnown d w
      → gen ≤ t.generation w
      → (t.generation w ≡ gen → commanded w ≡ some c)
      → Keeps w r.1
      → Resynced gen d (resync_stepped t gen d r)
  unfolding resync_stepped
  resync_stepped-Resynced gen d c (none, w') w h g told k =
      (Keeps-IsKnown d w w' k h, omega (arith, g, k.0), refl, refl, λ e. absurd (cc))
  resync_stepped-Resynced gen d c (some now, w') w h g told k = (
    (
      omega (arith, g, k.0),
      λ has same.
          let still : t.generation w' ≡ t.generation w = omega (arith, k.0, g, same) in
          rw (k.1 still) (rw (told (omega (arith, still, same))) refl),
    ),
    omega (arith, g, k.0),
    refl,
    refl,
    λ _. refl,
  )

  resync_written-Resynced :
      (now : ℤ) (gen : ℕ) (d : FleetDevice) (c : Setpoint) (r : Option (List Float) × W) (w : W)
      → IsLawful d.inverter_obj
      → IsKnown d w
      → t.generation w ≡ gen
      → Writes w r.1
      → (is_some r.0 ≡ true → t.generation r.1 ≡ t.generation w → commanded r.1 ≡ some c)
      → Resynced gen d (resync_written t now gen d r)
  unfolding resync_written
  resync_written-Resynced now gen d c (none, w') w law h g k told =
      (Writes-IsKnown d w w' k h, omega (arith, g, k.0), refl, refl, λ e. absurd (cc))
  resync_written-Resynced now gen d c (some vals, w') w law h g k told =
      resync_stepped-Resynced gen d c (t.step_to now w') w' (Writes-IsKnown d w w' k h)
        (omega (arith, g, k.0)) (λ same. told refl (same ∙ sym g)) (law.stepping now w')

  resync_with-Resynced :
      (now : ℤ) (gen : ℕ) (stale : Bool) (o : Option ControlOutputs) (d : FleetDevice) (w : W)
      → IsLawful d.inverter_obj
      → IsKnown d w
      → t.generation w ≡ gen
      → not (gen == d.last_generation) ≡ stale
      → d.last_controls ≡ o
      → Resynced gen d (resync_with t now gen stale o d w)
  unfolding resync_with
  resync_with-Resynced now gen stale none d w law h g st o = (
    (omega (arith, g), λ has same. absurd (ground arith)),
    omega (arith, g),
    refl,
    refl,
    λ _. refl,
  )
  resync_with-Resynced now gen false (some c) d w law h g st o = (
    (omega (arith, g), λ has same. h.1 has (ground arith)),
    omega (arith, g),
    refl,
    refl,
    λ _. refl,
  )
  resync_with-Resynced now gen true (some c) d w law h g st o =
      resync_written-Resynced now gen d (setpoint_of c) (t.set (commands d.inverter_obj c) w) w law
        h g (law.writing c w) (law.written c w)

  pub resync-Resynced :
      (now : ℤ) (d : FleetDevice) (w : W)
      → IsLawful d.inverter_obj
      → IsKnown d w
      → Resynced (t.generation w) d (resync t now d w)
  unfolding resync
  resync-Resynced now d w law h =
      resync_with-Resynced now (t.generation w) (not (t.generation w == d.last_generation))
        d.last_controls d w law h refl refl refl

  -- What ReadState leaves, and what holds where it returns a reading.
  abbrev pub ReadWell : ℕ → (StateReading ⊎ FleetError) × FleetDevice × W → Type 0
  ReadWell gen (inr e, d, w) = IsKnown d w
  ReadWell gen (inl reading, d, w) =
      IsKnown d w
      × (is_some d.last_controls ≡ true → t.generation w ≡ gen → is_some (commanded w) ≡ true)

  read_got :
      (gen : ℕ) (res : StateReading ⊎ FleetError) (d : FleetDevice) (w : W)
      → IsKnown d w
      → d.last_generation ≡ gen
      → ReadWell gen (res, d, w)
  read_got gen (inr e) d w h g = h
  read_got gen (inl reading) d w h g = (h, λ has same. h.1 has (same ∙ sym g))

  read_resynced-ReadWell :
      (num : Numerics) (now : ℤ) (gen : ℕ) (d : FleetDevice)
      (r : Option FleetError × FleetDevice × W)
      → IsLawful d.inverter_obj
      → Resynced gen d r
      → ReadWell gen (read_resynced t num now r)
  unfolding read_resynced
  read_resynced-ReadWell num now gen d (some e, d', w) law h = h.0
  read_resynced-ReadWell num now gen d (none, d', w) law h =
      let items = state_items d' in
      read_got gen (state_reading num now (t.get items w).0) d' (t.get items w).1
        (Keeps-IsKnown d' w (t.get items w).1 (law.getting items w) h.0) (h.4 refl)

  pub read_fleet-ReadWell :
      (num : Numerics) (now later : ℤ) (d : FleetDevice) (w : W)
      → IsLawful d.inverter_obj
      → IsKnown d w
      → ReadWell (t.generation w) (read_fleet t num now later d w)
  unfolding read_fleet
  read_fleet-ReadWell num now later d w law h =
      elim (t.healthy w)
        as (λ b. ReadWell (t.generation w) (
          if not b
          then (inr sidecar_down, d, w)
          else read_resynced t num later (resync t now d w))) [
            | true ↦
                read_resynced-ReadWell num later (t.generation w) d (resync t now d w) law
                  (resync-Resynced now d w law h)
            | false ↦ h
          ]
