-- ===== src/FleetDevice.antt =====
-- internal/inverter/device/fleet.go: a device of a fleet whose model runs in a sidecar. The transport
-- is a record of functions over a world, an error being none; the readings of the clock are
-- arguments, and the square root and the quotient of float64 are parameters.
pub mod Commanded
pub mod Applied
pub mod Retold
pub mod Kept
use ieee_2030_5_client_go.Shared.{
  ℕ, Bool, true, false, not, List, [], ◌∷◌, Option, none, some, String, str_eq, ◌⊎◌, inl, inr,
  if◌then◌else◌, ◌==◌, ℤ,
}
use ieee_2030_5_client_go.Shared.Float.{Float, zero_f, is_zero_f}
use ieee_2030_5_client_go.SafetyGuard.{ControlOutputs, InverterState, ControlMode}

pub record FleetSetItem : Type 0 where
  pub object : String
  pub property : String
  pub value : Float

pub record FleetGetItem : Type 0 where
  pub object : String
  pub property : String

pub record FleetValue : Type 0 where
  pub re : Float
  pub im : Float

-- FleetValue.Float64, none for an error.
unfoldable pub float64 : FleetValue → Option Float
float64 v = if not (is_zero_f v.im) then none else some v.re

-- FleetTransport.
pub record Transport (W : Type 0) : Type 0 where
  pub healthy : W → Bool
  pub generation : W → ℕ
  pub set : List FleetSetItem → W → Option (List Float) × W
  pub step_to : ℤ → W → Option ℤ × W
  pub get : List FleetGetItem → W → Option (List FleetValue) × W

-- math.Hypot and the division of float64.
pub record Numerics : Type 0 where
  pub hypot : Float → Float → Float
  pub quotient : Float → Float → Float

pub record FleetDevice : Type 0 where
  pub inverter_obj : String
  pub meter_obj : String
  pub last_controls : Option ControlOutputs
  pub last_generation : ℕ

-- NewFleetDevice, for a transport that is there.
unfoldable pub new_fleet_device : String → String → Option FleetDevice
new_fleet_device inverter_obj meter_obj =
    if str_eq inverter_obj ""
    then none
    else if str_eq meter_obj ""
    then none
    else some (record {
      inverter_obj = inverter_obj;
      meter_obj = meter_obj;
      last_controls = none;
      last_generation = 0;
    })

pub record StateReading : Type 0 where
  pub volts_pu : Float
  pub freq_hz : Float
  pub time : ℤ
  pub max_power_w : Float

pub data FleetError : Type 0 where
  sidecar_down resync_set resync_step : FleetError
  read_state_failed wrong_count not_real nominal_zero : FleetError
  apply_failed step_failed read_back_failed : FleetError

-- The two writes of a setpoint.
unfoldable pub commands : String → ControlOutputs → List FleetSetItem
commands obj c =
    record { object = obj; property = "P_Out"; value = c.active_power_w }
    ∷ record { object = obj; property = "Q_Out"; value = c.reactive_power_var }
    ∷ []

pub state_items : FleetDevice → List FleetGetItem
state_items d =
    record { object = d.inverter_obj; property = "rated_power" }
    ∷ record { object = d.meter_obj; property = "measured_voltage_A" }
    ∷ record { object = d.meter_obj; property = "nominal_voltage" }
    ∷ record { object = d.meter_obj; property = "measured_frequency" }
    ∷ []

pub power_items : FleetDevice → List FleetGetItem
power_items d =
    record { object = d.inverter_obj; property = "P_Out" }
    ∷ record { object = d.inverter_obj; property = "Q_Out" }
    ∷ []

-- The reading that ReadState makes of the four values.
reading_of :
    Numerics
    → ℤ
    → FleetValue
    → Option Float
    → Option Float
    → Option Float
    → StateReading ⊎ FleetError
reading_of num now volts (some rated) (some nominal) (some freq) =
    if is_zero_f nominal
    then inr nominal_zero
    else inl (record {
      volts_pu = num.quotient (num.hypot volts.re volts.im) nominal;
      freq_hz = freq;
      time = now;
      max_power_w = rated;
    })
reading_of num now volts rated nominal freq = inr not_real

unfoldable pub state_reading : Numerics → ℤ → Option (List FleetValue) → StateReading ⊎ FleetError
unfolding reading_of float64
state_reading num now none = inr read_state_failed
state_reading num now (some (rated ∷ volts ∷ nominal ∷ freq ∷ [])) =
    reading_of num now volts (float64 rated) (float64 nominal) (float64 freq)
state_reading num now (some vals) = inr wrong_count

-- The state that ApplySetpoint makes of what it read back.
achieved_of : ControlOutputs → ℤ → Option Float → Option Float → InverterState ⊎ FleetError
achieved_of c now (some active) (some reactive) = inl (record {
  active_power_w = active;
  reactive_power_var = reactive;
  power_factor = zero_f;
  volts_pu = zero_f;
  freq_hz = zero_f;
  connected = c.connected;
  energized = c.energized;
  mode = c.mode;
  time = some now;
})
achieved_of c now active reactive = inr not_real

unfoldable pub achieved : ControlOutputs → ℤ → Option (List FleetValue) → InverterState ⊎ FleetError
unfolding achieved_of float64
achieved c now none = inr read_back_failed
achieved c now (some (active ∷ reactive ∷ [])) =
    achieved_of c now (float64 active) (float64 reactive)
achieved c now (some vals) = inr wrong_count

module _ {W : Type 0} (t : Transport W) where
  -- The two calls of a resync that is due, and what the device remembers then.
  unfoldable pub resync_stepped :
      ℕ → FleetDevice → Option ℤ × W → Option FleetError × FleetDevice × W
  resync_stepped gen d (none, w) = (some resync_step, d, w)
  resync_stepped gen d (some now, w) = (none, record d { last_generation = gen }, w)

  unfoldable pub resync_written :
      ℤ → ℕ → FleetDevice → Option (List Float) × W → Option FleetError × FleetDevice × W
  unfolding resync_stepped
  resync_written now gen d (none, w) = (some resync_set, d, w)
  resync_written now gen d (some vals, w) = resync_stepped gen d (t.step_to now w)

  unfoldable pub resync_with :
      ℤ → ℕ → Bool → Option ControlOutputs → FleetDevice → W → Option FleetError × FleetDevice × W
  unfolding resync_written
  resync_with now gen stale none d w = (none, record d { last_generation = gen }, w)
  resync_with now gen stale (some c) d w =
      if not stale
      then (none, record d { last_generation = gen }, w)
      else resync_written now gen d (t.set (commands d.inverter_obj c) w)

  -- resyncAfterRestartLocked.
  unfoldable pub resync : ℤ → FleetDevice → W → Option FleetError × FleetDevice × W
  unfolding resync_with
  resync now d w =
      let gen = t.generation w in
      resync_with now gen (not (gen == d.last_generation)) d.last_controls d w

  unfoldable pub read_resynced :
      Numerics
      → ℤ
      → Option FleetError × FleetDevice × W
      → (StateReading ⊎ FleetError) × FleetDevice × W
  unfolding state_reading state_items
  read_resynced num now (some e, d, w) = (inr e, d, w)
  read_resynced num now (none, d, w) =
      let (vals, w') = t.get (state_items d) w in (state_reading num now vals, d, w')

  -- ReadState; the clock is read in the resync, and for the reading.
  unfoldable pub read_fleet :
      Numerics → ℤ → ℤ → FleetDevice → W → (StateReading ⊎ FleetError) × FleetDevice × W
  unfolding read_resynced resync
  read_fleet num now later d w =
      if not (t.healthy w)
      then (inr sidecar_down, d, w)
      else read_resynced num later (resync now d w)

  -- ApplySetpoint remembers the controls when it succeeds.
  unfoldable pub remembered :
      ControlOutputs
      → FleetDevice
      → (InverterState ⊎ FleetError) × W
      → (InverterState ⊎ FleetError) × FleetDevice × W
  remembered c d (inl s, w) = (inl s, record d { last_controls = some c }, w)
  remembered c d (inr e, w) = (inr e, d, w)

  unfoldable pub apply_stepped :
      ControlOutputs → FleetDevice → Option ℤ × W → (InverterState ⊎ FleetError) × FleetDevice × W
  unfolding achieved remembered power_items
  apply_stepped c d (none, w) = (inr step_failed, d, w)
  apply_stepped c d (some time, w) =
      let (got, w') = t.get (power_items d) w in remembered c d (achieved c time got, w')

  unfoldable pub apply_written :
      ControlOutputs
      → ℤ
      → FleetDevice
      → Option (List Float) × W
      → (InverterState ⊎ FleetError) × FleetDevice × W
  unfolding apply_stepped
  apply_written c now d (none, w) = (inr apply_failed, d, w)
  apply_written c now d (some vals, w) = apply_stepped c d (t.step_to now w)

  unfoldable pub apply_resynced :
      ControlOutputs
      → ℤ
      → Option FleetError × FleetDevice × W
      → (InverterState ⊎ FleetError) × FleetDevice × W
  unfolding apply_written
  apply_resynced c now (some e, d, w) = (inr e, d, w)
  apply_resynced c now (none, d, w) = apply_written c now d (t.set (commands d.inverter_obj c) w)

  -- ApplySetpoint; the clock is read in the resync, and for the step.
  unfoldable pub apply_fleet :
      ControlOutputs → ℤ → ℤ → FleetDevice → W → (InverterState ⊎ FleetError) × FleetDevice × W
  unfolding apply_resynced resync
  apply_fleet c now later d w =
      if not (t.healthy w)
      then (inr sidecar_down, d, w)
      else apply_resynced c later (resync now d w)
