-- ===== src/SafetyGuard/Setpoint.antt =====
-- ReadState and ApplySetpoint of internal/inverter/device/guards.go. The wrapped device is a function
-- of its own state, which returns the state it reached or the text of an error.
use ieee_2030_5_client_go.Shared.{
  Bool, true, Option, none, some, String, if◌then◌else◌, ◌⊎◌, inl, inr, ℤ,
}
use ieee_2030_5_client_go.SafetyGuard.{
  InverterState, ControlOutputs, Error, malformed_control, scale_mismatch, stale_state,
  rate_limit_exceeded, write_failed, GuardedDevice, TokenBucket, zero_state, allow,
  clamp_to_nameplate, reject_malformed, validate_units_and_scale, check_staleness, fail_safe,
}

-- The state and the error that ApplySetpoint returns.
pub record Reply : Type 0 where
  pub state : InverterState
  pub err : Option Error

abbrev pub refuse : Error → Reply
refuse e = record { state = zero_state; err = some e }

-- ReadState: what the wrapped device reads is passed on; a success is stamped.
module _ {D V : Type 0} (read : D → (V ⊎ String) × D) where
  unfoldable pub read_state : ℤ → GuardedDevice → D → (V ⊎ String) × GuardedDevice × D
  read_state now g d =
      let (result, d') = read d in
      (elim result [
        | inl v ↦ (inl v, record g { last_read_time = some now }, d')
        | inr e ↦ (inr e, g, d')
      ])

module _ {D : Type 0} (write : ControlOutputs → D → (InverterState ⊎ String) × D) where
  -- The write and the fail-safe, from the call of the wrapped device on.
  unfoldable pub write_setpoint : ControlOutputs → GuardedDevice → D → Reply × GuardedDevice × D
  unfolding fail_safe
  write_setpoint c g d =
      let (result, d') = write c d in
      (elim result [
        | inl s ↦
            (record { state = s; err = none }, record g { last_good = s; has_good = true }, d')
        | inr e ↦ (record { state = fail_safe g; err = some (write_failed e) }, g, d')
      ])

  -- ApplySetpoint; the clock is read for guard 4, and again for guard 3.
  unfoldable pub apply_setpoint :
      ℤ → ℤ → ControlOutputs → GuardedDevice → D → Reply × GuardedDevice × D
  unfolding write_setpoint
  apply_setpoint now later controls g d =
      let c = clamp_to_nameplate controls g.nameplate in
      let (ok, limiter) : Bool × TokenBucket = allow later g.limiter in
      let g' = record g { limiter = limiter } in
      if reject_malformed controls
      then (refuse malformed_control, g, d)
      else if validate_units_and_scale g controls
      then (refuse scale_mismatch, g, d)
      else if check_staleness now g
      then (refuse stale_state, g, d)
      else if ok
      then write_setpoint c g' d
      else (refuse rate_limit_exceeded, g', d)
