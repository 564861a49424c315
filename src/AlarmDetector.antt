-- ===== src/AlarmDetector.antt =====
-- The alarm detector of internal/inverter/alarm_detector.go: one LogEvent for each alarm that begins.
-- The emitter, and the float64 subtraction, quotient and formatting, are parameters. A nil emitter is
-- an option none. The context, the time of the inputs and the log lines are left out.
pub mod Edges
use ieee_2030_5_client_go.Shared.{
  ℕ, Bool, true, false, not, ◌&&◌, ◌||◌, List, [], ◌∷◌, ◌++◌, Option, none, some, String, str_eq,
  ◌==◌, if◌then◌else◌, is_some, ℤ,
}
use ieee_2030_5_client_go.Shared.Float.{Float, zero_f, ltf, gef, dyadic, negate}
use ieee_2030_5_client_go.RideThrough.{GridState, check_voltage_trip, check_frequency_trip}

-- AlarmInputs.
pub record AlarmInputs : Type 0 where
  pub grid : GridState
  pub connected : Bool
  pub energized : Bool
  pub active_power_w : Float
  pub reactive_power_var : Float
  pub pre_disturbance_pw : Float
  pub rated_var : Float
  pub abnormal_duration : ℤ

-- AlarmState.
pub record AlarmState : Type 0 where
  pub voltage_low : Bool
  pub voltage_high : Bool
  pub frequency_low : Bool
  pub frequency_high : Bool
  pub reactive_limit : Bool
  pub active_limit : Bool
  pub gen_disable : Bool

-- LogEvent, as far as the detector fills it.
pub record LogEvent : Type 0 where
  pub function_set : ℕ
  pub code : ℕ
  pub profile_id : ℕ
  pub details : String

-- What PostLogEvent answers, as far as the detector tells its errors apart.
pub data PostAnswer : Type 0 where
  accepted link_absent rate_limited method_not_allowed failed : PostAnswer

-- What the detector uses of other code: sep2.FunctionSetDER, fmt.Sprintf of two decimals and a unit,
-- and the float64 subtraction and quotient.
pub record Numerics : Type 0 where
  pub function_set_der : ℕ
  pub short_detail : Float → String → String
  pub minus : Float → Float → Float
  pub quotient : Float → Float → Float

-- AlarmDetector. The two limits are NewAlarmDetector's.
pub record AlarmDetector (W : Type 0) : Type 0 where
  pub emitter : Option (String → LogEvent → W → PostAnswer × W)
  pub log_event_list_href : String
  pub prev : AlarmState
  pub suppressed : ℕ → Bool

-- 0.10 and 0.05.
abbrev pub reactive_limit_threshold : Float
reactive_limit_threshold = dyadic 3602879701896397 55

abbrev pub active_limit_margin : Float
active_limit_margin = dyadic 3602879701896397 56

abbrev pub no_alarm : AlarmState
no_alarm = record {
  voltage_low = false;
  voltage_high = false;
  frequency_low = false;
  frequency_high = false;
  reactive_limit = false;
  active_limit = false;
  gen_disable = false;
}

-- NewAlarmDetector.
unfoldable pub new_alarm_detector :
    {W : Type 0} → Option (String → LogEvent → W → PostAnswer × W) → String → AlarmDetector W
new_alarm_detector emitter href = record {
  emitter = emitter;
  log_event_list_href = href;
  prev = no_alarm;
  suppressed = λ code. false;
}

abbrev is_reactive_limit : Numerics → AlarmInputs → Bool
is_reactive_limit n i =
    let ratio = n.quotient i.reactive_power_var i.rated_var in
    ltf zero_f i.rated_var
    && gef (if ltf ratio zero_f then negate ratio else ratio) reactive_limit_threshold

abbrev is_active_limit : Numerics → AlarmInputs → Bool
is_active_limit n i =
    let drop = n.quotient (n.minus i.pre_disturbance_pw i.active_power_w) i.pre_disturbance_pw in
    ltf zero_f i.pre_disturbance_pw && gef drop active_limit_margin

-- classify.
unfoldable pub classify : Numerics → AlarmInputs → AlarmState
classify n i =
    let v_trip = check_voltage_trip i.grid.volts_pu i.abnormal_duration in
    let f_trip = check_frequency_trip i.grid.freq_hz i.abnormal_duration in
    let v_below = ltf i.grid.volts_pu (dyadic 1 0) in
    let f_below = ltf i.grid.freq_hz (dyadic 60 0) in
    record {
      voltage_low = v_trip && v_below;
      voltage_high = v_trip && not v_below;
      frequency_low = f_trip && f_below;
      frequency_high = f_trip && not f_below;
      reactive_limit = is_reactive_limit n i;
      active_limit = is_active_limit n i;
      gen_disable = not i.connected || not i.energized;
    }

-- The LogEventCodes of internal/inverter/log_event_codes.go are 1 to 7; logEventDetailFor.
unfoldable pub log_event_detail_for : Numerics → ℕ → AlarmInputs → String
log_event_detail_for n code i =
    if code == 1 || code == 2
    then n.short_detail i.grid.volts_pu "pu"
    else if code == 3 || code == 4
    then n.short_detail i.grid.freq_hz "Hz"
    else if code == 5
    then n.short_detail i.reactive_power_var "VAr"
    else if code == 6
    then n.short_detail i.active_power_w "W"
    else if code == 7
    then "offline"
    else ""

-- enabled.
unfoldable pub is_enabled : {W : Type 0} → AlarmDetector W → Bool
is_enabled d = is_some d.emitter && not (str_eq d.log_event_list_href "")

unfoldable pub log_event_for : Numerics → ℕ → AlarmInputs → LogEvent
log_event_for n code i = record {
  function_set = n.function_set_der;
  code = code;
  profile_id = 2;
  details = log_event_detail_for n code i;
}

abbrev is_not_allowed : PostAnswer → Bool
is_not_allowed method_not_allowed = true
is_not_allowed _ = false

unfoldable pub suppress : {W : Type 0} → PostAnswer → ℕ → AlarmDetector W → AlarmDetector W
suppress answer code d = record d {
  suppressed = λ c. is_not_allowed answer && (code == c) || d.suppressed c;
}

module _ {W : Type 0} (n : Numerics) where
  -- The post of fireIfRising.
  unfoldable pub emit :
      Option (String → LogEvent → W → PostAnswer × W)
      → ℕ
      → AlarmInputs
      → AlarmDetector W
      → W
      → AlarmDetector W × W
  emit none code i d w = (d, w)
  emit (some post) code i d w =
      let (answer, w1) = post d.log_event_list_href (log_event_for n code i) w in
      (suppress answer code d, w1)

  -- fireIfRising.
  unfoldable pub fire_if_rising :
      Bool → Bool → ℕ → AlarmInputs → AlarmDetector W → W → AlarmDetector W × W
  fire_if_rising prev next code i d w =
      let posted = emit d.emitter code i d w in
      if not next || (prev || (d.suppressed code || not (is_enabled d))) then (d, w) else posted

  -- The calls of fireIfRising in Evaluate, one after the other.
  unfoldable pub fire_each :
      List (ℕ × (Bool × Bool)) → AlarmInputs → AlarmDetector W → W → AlarmDetector W × W
  fire_each [] i d w = (d, w)
  fire_each ((code, (prev, next)) ∷ edges) i d w =
      let (d1, w1) = fire_if_rising prev next code i d w in fire_each edges i d1 w1

-- The classes of Evaluate, each with its code, and its alarm before and now.
abbrev pub edges_of : AlarmState → AlarmState → List (ℕ × (Bool × Bool))
edges_of p s =
    (1, (p.voltage_low, s.voltage_low))
    ∷ ((2, (p.voltage_high, s.voltage_high))
        ∷ ((3, (p.frequency_low, s.frequency_low))
            ∷ ((4, (p.frequency_high, s.frequency_high))
                ∷ ((5, (p.reactive_limit, s.reactive_limit))
                    ∷ ((6, (p.active_limit, s.active_limit))
                        ∷ ((7, (p.gen_disable, s.gen_disable)) ∷ []))))))

-- Evaluate.
unfoldable pub evaluate :
    {W : Type 0} → Numerics → AlarmInputs → AlarmDetector W → W → AlarmDetector W × W
evaluate n i d w =
    let next = classify n i in
    let (d1, w1) = fire_each n (edges_of d.prev next) i d w in (record d1 { prev = next }, w1)
