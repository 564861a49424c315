-- ===== src/SafetyGuard.antt =====
-- internal/inverter/device/guards.go: the five guards before a setpoint is written to a device, and
-- the fail-safe after a write that fails. The wrapped DERDevice and the product of a rating with
-- defaultScaleMultiplier are parameters; the clock's readings are arguments, instants in
-- nanoseconds, the zero Time of an option being none.
pub mod Bucket
pub mod Setpoint
pub mod Clamped
use ieee_2030_5_client_go.Shared.Float.{
  Float, nan, neg_inf, pos_inf, finite, ltf, not_positive, negate, is_nan_or_inf,
}
use ieee_2030_5_client_go.Shared.{
  ℕ, ◌+◌, ◌-◌, ◌*◌, ◌^◌, Bool, true, false, not, ◌&&◌, ◌||◌, Option, none, some, String, ◌==◌,
  if◌then◌else◌, ltb_ℤ, ℤ, pos, negsuc, ◌-ℤ◌,
}

pub data ControlMode : Type 0 where
  constant_pf volt_var watt_var constant_q volt_watt freq_droop : ControlMode
  disconnected tripped enter_service : ControlMode

pub record InverterState : Type 0 where
  pub active_power_w : Float
  pub reactive_power_var : Float
  pub power_factor : Float
  pub volts_pu : Float
  pub freq_hz : Float
  pub connected : Bool
  pub energized : Bool
  pub mode : ControlMode
  pub time : Option ℤ

-- `refused` is the text of the error.
pub record ControlOutputs : Type 0 where
  pub active_power_w : Float
  pub reactive_power_var : Float
  pub connected : Bool
  pub energized : Bool
  pub mode : ControlMode
  pub refused : Option String

pub record Nameplate : Type 0 where
  pub rated_w : Float
  pub rated_var : Float

pub data Error : Type 0 where
  malformed_control scale_mismatch stale_state rate_limit_exceeded : Error
  write_failed : String → Error

-- `tokens` is not negative: allow takes one only where one is left, and burst is ten.
pub record TokenBucket : Type 0 where
  pub tokens : ℕ
  pub burst : ℕ
  pub window : ℤ
  pub last_fill : ℤ

-- defaultWriteBurst and defaultWriteWindow.
abbrev pub default_write_burst : ℕ
default_write_burst = 10

abbrev pub default_write_window : ℤ
default_write_window = pos (10 ^ 9)

unfoldable pub new_token_bucket : ℕ → ℤ → ℤ → TokenBucket
new_token_bucket burst window now = record {
  tokens = burst;
  burst = burst;
  window = window;
  last_fill = now;
}

unfoldable pub refill : ℤ → TokenBucket → TokenBucket
refill now tb =
    if not (ltb_ℤ (now -ℤ tb.last_fill) tb.window)
    then record tb { tokens = tb.burst; last_fill = now }
    else tb

unfoldable pub take_token : TokenBucket → Bool × TokenBucket
take_token tb = if tb.tokens == 0 then (false, tb) else (true, record tb { tokens = tb.tokens - 1 })

-- tokenBucket.allow.
unfoldable pub allow : ℤ → TokenBucket → Bool × TokenBucket
allow now tb = take_token (refill now tb)

-- guardedDevice, without the wrapped device, which is a state of its own.
pub record GuardedDevice : Type 0 where
  pub nameplate : Nameplate
  pub scale_max_w : Float
  pub scale_max_var : Float
  pub max_state_age : ℤ
  pub limiter : TokenBucket
  pub last_good : InverterState
  pub has_good : Bool
  pub last_read_time : Option ℤ

-- The zero value of InverterState, and the safe default of failSafe.
abbrev pub zero_state : InverterState
zero_state = record {
  active_power_w = finite (pos 0);
  reactive_power_var = finite (pos 0);
  power_factor = finite (pos 0);
  volts_pu = finite (pos 0);
  freq_hz = finite (pos 0);
  connected = false;
  energized = false;
  mode = constant_pf;
  time = none;
}

abbrev pub safe_default : InverterState
safe_default = record zero_state { mode = disconnected }

-- WithSafetyGuards; `scale` multiplies by defaultScaleMultiplier.
unfoldable pub with_safety_guards : (Float → Float) → Nameplate → ℤ → ℤ → GuardedDevice
unfolding new_token_bucket
with_safety_guards scale np age now = record {
  nameplate = np;
  scale_max_w = scale np.rated_w;
  scale_max_var = scale np.rated_var;
  max_state_age = age;
  limiter = new_token_bucket default_write_burst default_write_window now;
  last_good = zero_state;
  has_good = false;
  last_read_time = none;
}

unfoldable pub clamp : Float → Float → Float → Float
clamp low high x = let x' = if ltf high x then high else x in if ltf x' low then low else x'

unfoldable pub clamp_to_nameplate : ControlOutputs → Nameplate → ControlOutputs
clamp_to_nameplate c np = record c {
  active_power_w = clamp (finite (pos 0)) np.rated_w c.active_power_w;
  reactive_power_var = clamp (negate np.rated_var) np.rated_var c.reactive_power_var;
}

unfoldable pub reject_malformed : ControlOutputs → Bool
reject_malformed c = is_nan_or_inf c.active_power_w || is_nan_or_inf c.reactive_power_var

unfoldable pub exceeds : Float → Float → Bool
exceeds x bound = ltf bound x || ltf x (negate bound)

-- validateUnitsAndScale: whether it returns an error.
unfoldable pub validate_units_and_scale : GuardedDevice → ControlOutputs → Bool
validate_units_and_scale g c =
    (not_positive g.scale_max_w || not_positive g.scale_max_var)
    || (exceeds c.active_power_w g.scale_max_w || exceeds c.reactive_power_var g.scale_max_var)

-- checkStaleness: whether it returns an error.
unfoldable pub check_staleness : ℤ → GuardedDevice → Bool
check_staleness now g =
    if not (ltb_ℤ (pos 0) g.max_state_age)
    then false
    else (elim g.last_read_time [ none ↦ true | some t ↦ ltb_ℤ g.max_state_age (now -ℤ t) ])

unfoldable pub fail_safe : GuardedDevice → InverterState
fail_safe g = if g.has_good then g.last_good else safe_default
