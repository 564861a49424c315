-- ===== src/Examples/Devices.antt =====
-- The guards of a device's writes and the responses to events at concrete inputs.
use ieee_2030_5_client_go.Shared.{
  List, ℕ, ◌+◌, ◌*◌, negsuc, ◌-ℤ◌, ◌≤◌, ◌≡◌, ◌≢◌, refl, ◌⊎◌, inl, ◌↔◌, true, [], ◌∷◌, Option, none,
  some, String, is_some, arith, ℤ, pos, ◌+ℤ◌,
}
use ieee_2030_5_client_go.Sep2.{DerControl}
use ieee_2030_5_client_go.Shared.Float.{Float, nan, neg_inf, pos_inf, finite, not_positive}
use ieee_2030_5_client_go.SafetyGuard.{
  constant_pf, InverterState, ControlOutputs, GuardedDevice, new_token_bucket, with_safety_guards,
  zero_state, allow, take_token, refill,
}
use ieee_2030_5_client_go.SafetyGuard.Bucket.{granted, granted_bound}
use ieee_2030_5_client_go.SafetyGuard.Setpoint.{write_setpoint, apply_setpoint}
use ieee_2030_5_client_go.SafetyGuard.Clamped.{Passes, Clamped, apply_setpoint_clamps}
use ieee_2030_5_client_go.StateMachine.{event_received, event_started}
use ieee_2030_5_client_go.Responses.{Texts, map_transition_to_status, response_of}
use ieee_2030_5_client_go.Shared.Map.{lookup, insert}
use ieee_2030_5_client_go.LogEventLimiter.{new_limiter, allow_event}
use ieee_2030_5_client_go.LogEventLimiter.Spacing.{emitted, Spaced, new_limiter-Spaced}
use ieee_2030_5_client_go.Responses.Hooked.{Answered, response_of_iff}
use ieee_2030_5_client_go.Responses.Retry.{PostError, transient_error}
use ieee_2030_5_client_go.Responses.RetryBound.{World}

-- Times a hundred, on the whole numbers.
abbrev hundredfold : Float → Float
hundredfold nan = nan
hundredfold neg_inf = neg_inf
hundredfold pos_inf = pos_inf
hundredfold (finite (pos n)) = finite (pos (n * 100))
hundredfold (finite (negsuc n)) = finite (negsuc (n * 100 + 99))

hundredfold_sign : (x : Float) → not_positive x ≡ true → not_positive (hundredfold x) ≡ true
unfolding not_positive
hundredfold_sign nan h = h
hundredfold_sign neg_inf h = h
hundredfold_sign pos_inf h = h
hundredfold_sign (finite (pos n)) h = ground arith
hundredfold_sign (finite (negsuc n)) h = ground arith

-- A device that keeps the last setpoint, and always does what it is told.
abbrev obey :
    ControlOutputs → Option ControlOutputs → (InverterState ⊎ String) × Option ControlOutputs
obey c d = (inl (record zero_state { active_power_w = c.active_power_w }), some c)

abbrev device : GuardedDevice
device =
    with_safety_guards hundredfold (record { rated_w = finite (pos 5); rated_var = finite (pos 3) })
      (pos 0) (pos 0)

abbrev excessive : ControlOutputs
excessive = record {
  active_power_w = finite (pos 9);
  reactive_power_var = finite (pos 1);
  connected = true;
  energized = true;
  mode = constant_pf;
  refused = none;
}

apply_setpoint_clamps_example :
    (((apply_setpoint obey (pos 1) (pos 2) excessive device none).2 ≡ none)
      × ((apply_setpoint obey (pos 1) (pos 2) excessive device none).0.err ≢ none)
      × ((apply_setpoint obey (pos 1) (pos 2) excessive device none).0.state ≡ zero_state))
    ⊎ (Passes (pos 1) (pos 2) excessive device
        × ((c' : ControlOutputs) × Clamped excessive (pos 5) (pos 3) c'
            × (apply_setpoint obey (pos 1) (pos 2) excessive device none
                ≡ write_setpoint obey c'
                    (record device { limiter = (allow (pos 2) device.limiter).1 })
                    none)))
unfolding with_safety_guards
apply_setpoint_clamps_example =
    apply_setpoint_clamps obey hundredfold hundredfold_sign (pos 1) (pos 2) excessive device none
      (pos 5) (pos 3) refl refl refl

-- Two tokens, and a refill between the calls.
granted_bound_example :
    granted
      (pos 9 ∷ pos 9 ∷ pos 9 ∷ pos 11 ∷ pos 12 ∷ pos 13 ∷ [])
      (new_token_bucket 2 (pos 10) (pos 0))
    ≤ 2 + 2
unfolding new_token_bucket ◌+ℤ◌
granted_bound_example =
    granted_bound (pos 9) (pos 10) (pos 9 ∷ pos 9 ∷ pos 9 ∷ pos 11 ∷ pos 12 ∷ pos 13 ∷ [])
      (new_token_bucket 2 (pos 10) (pos 0)) refl (omega arith) (ground arith)

-- Four writes of a burst of two pass within four units of a window of ten.
granted_twice :
    granted
      (pos 9 ∷ pos 9 ∷ pos 9 ∷ pos 11 ∷ pos 12 ∷ pos 13 ∷ [])
      (new_token_bucket 2 (pos 10) (pos 0))
    ≡ 4
unfolding granted new_token_bucket allow take_token refill ◌-ℤ◌
granted_twice = refl

abbrev plain_texts : Texts
plain_texts = record { hex_02x = λ n. "?"; concat = λ s t. t; sha_256_prefix = λ s. s }

abbrev answerable : DerControl
answerable = record {
  mrid = "E1";
  interval = none;
  randomize_start = none;
  randomize_duration = none;
  status = none;
  reply_to = "/rsp";
  response_required = some 3;
  payload = 0;
}

response_of_iff_example :
    (is_some (
        response_of plain_texts "L"
          (pos 5)
          map_transition_to_status
          event_received
          event_started
          (some answerable))
      ≡ true)
    ↔ Answered event_started answerable
response_of_iff_example =
    response_of_iff plain_texts "L" (pos 5) event_received event_started answerable (inl refl)

-- A server that never answers, and a sleep that is never cut short.
abbrev busy : ℕ → Option PostError × ℕ
busy v = (some (transient_error "503"), v + 1)

abbrev sound_sleep : ℤ → ℕ → Option PostError × ℕ
sound_sleep d v = (none, v)

abbrev double : ℤ → ℤ
double d = d +ℤ d

abbrev start : World ℕ
start = record { outside = 0; posts = 0; waits = [] }

abbrev no_error : Option PostError
no_error = none

-- Two codes, the first of them three times.
abbrev calls : List (ℕ × ℤ)
calls = (1, pos 0) ∷ (2, pos 5) ∷ (1, pos 9) ∷ (1, pos 10) ∷ []

new_limiter-Spaced_example : Spaced (pos 10) (emitted 1 calls (new_limiter (pos 10)))
new_limiter-Spaced_example = new_limiter-Spaced (pos 10) 1 calls (ground arith)

emitted_twice : emitted 1 calls (new_limiter (pos 10)) ≡ pos 0 ∷ pos 10 ∷ []
unfolding emitted new_limiter allow_event lookup insert ◌-ℤ◌
emitted_twice = refl
