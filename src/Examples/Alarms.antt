-- ===== src/Examples/Alarms.antt =====
-- The theorem about the alarm detector at a voltage that has been low for too long.
use ieee_2030_5_client_go.RideThrough.{rt_tripped, is_normal, check_enter_service}
use ieee_2030_5_client_go.RideThrough.Tripped.{Sample, evaluate_all, is_out, evaluate_all-tripped}
use ieee_2030_5_client_go.Shared.{
  List, ℕ, ◌≡◌, refl, true, false, none, [], ◌∷◌, some, sec, pos, ◌-ℤ◌,
}
use ieee_2030_5_client_go.Shared.Float.{Float, nan, finite, zero_f, dyadic, ltf, gef}
use ieee_2030_5_client_go.RideThrough.{check_voltage_trip, check_frequency_trip}
use ieee_2030_5_client_go.AlarmDetector.{
  AlarmInputs, accepted, Numerics, new_alarm_detector, classify, is_enabled, suppress, emit,
  log_event_for, fire_if_rising, fire_each, evaluate,
}
use ieee_2030_5_client_go.AlarmDetector.Edges.{
  Emitter, Reached, evaluate_each, posts_of, evaluate_each-posts_of,
}

abbrev subtract : Float → Float → Float
subtract (finite a) (finite b) = finite (a -ℤ b)
subtract _ _ = nan

abbrev numerics : Numerics
numerics = record {
  function_set_der = 11;
  short_detail = λ x unit. unit;
  minus = subtract;
  quotient = λ x y. zero_f;
}

-- A voltage of a quarter for ten seconds, with the inverter on.
abbrev low : AlarmInputs
low = record {
  grid = record { volts_pu = dyadic 1 2; freq_hz = dyadic 60 0 };
  connected = true;
  energized = true;
  active_power_w = dyadic 1000 0;
  reactive_power_var = zero_f;
  pre_disturbance_pw = dyadic 1000 0;
  rated_var = dyadic 500 0;
  abnormal_duration = sec (pos 10);
}

-- The emitter accepts each post; the world is the codes posted, the last first.
abbrev emitter : Emitter (List ℕ)
emitter href event w = (accepted, event.code ∷ w)

-- The low voltage lasts for two evaluations.
evaluate_each-posts_of_example :
    let (d', w') =
      evaluate_each numerics emitter "/log"
        (low ∷ low ∷ [])
        (new_alarm_detector (some emitter) "/log")
        [] in
    ◌≡◌ {A = Reached numerics emitter "/log"}
      (d'.suppressed, w')
      (posts_of numerics emitter "/log" none (low ∷ low ∷ []) ((λ c. false), []))
evaluate_each-posts_of_example = evaluate_each-posts_of numerics emitter "/log" (low ∷ low ∷ []) []

-- The first low voltage is posted, and the same voltage at the next evaluation is not.
posted_test :
    (evaluate_each numerics emitter "/log"
      (low ∷ low ∷ [])
      (new_alarm_detector (some emitter) "/log")
      []).1
    ≡ 1 ∷ []
unfolding evaluate fire_each fire_if_rising emit suppress is_enabled classify new_alarm_detector
    check_voltage_trip check_frequency_trip dyadic ltf gef sec log_event_for
posted_test = refl

-- A normal grid too early, and then the low voltage again.
abbrev samples : List Sample
samples =
    (record { volts_pu = dyadic 1 0; freq_hz = dyadic 60 0 }, sec (pos 10))
    ∷ (record { volts_pu = dyadic 1 2; freq_hz = dyadic 60 0 }, sec (pos 400))
    ∷ []

evaluate_all-tripped_example : is_out (evaluate_all samples rt_tripped) ≡ true
unfolding is_normal check_enter_service gef ltf dyadic sec
evaluate_all-tripped_example = evaluate_all-tripped samples refl
