-- ===== src/RideThrough.antt =====
-- internal/inverter/ridethrough.go: the trip curves and the ride-through states. Each float64 constant is the one that the literal
-- of the code rounds to.
pub mod Tripped
use ieee_2030_5_client_go.Shared.{
  Bool, true, false, not, ◌&&◌, ◌||◌, if◌then◌else◌, ℤ, pos, ltb_ℤ, sec,
}
use ieee_2030_5_client_go.Shared.Float.{Float, ltf, gef, dyadic}

-- GridState, without its time.
pub record GridState : Type 0 where
  pub volts_pu : Float
  pub freq_hz : Float

-- Whether a duration has been reached.
abbrev reached : ℤ → ℤ → Bool
reached duration limit = not (ltb_ℤ duration limit)

-- 160 milliseconds.
abbrev must_trip : ℤ
must_trip = pos 160000000

-- CheckVoltageTrip: at less than 0.50, 0.70 and 0.88, and at more than 1.20 and 1.10.
unfoldable pub check_voltage_trip : Float → ℤ → Bool
check_voltage_trip v duration =
    if ltf v (dyadic 1 1)
    then reached duration must_trip
    else if ltf v (dyadic 3152519739159347 52)
    then reached duration (sec (pos 10))
    else if ltf v (dyadic 7926335344172073 53)
    then reached duration (sec (pos 20))
    else if ltf (dyadic 5404319552844595 52) v
    then reached duration must_trip
    else if ltf (dyadic 2476979795053773 51) v
    then reached duration (sec (pos 12))
    else false

-- CheckFrequencyTrip: at less than 57.0 and 59.0, and at more than 62.0 and 60.5.
unfoldable pub check_frequency_trip : Float → ℤ → Bool
check_frequency_trip f duration =
    if ltf f (dyadic 57 0)
    then reached duration must_trip
    else if ltf f (dyadic 59 0)
    then reached duration (sec (pos 300))
    else if ltf (dyadic 62 0) f
    then reached duration must_trip
    else if ltf (dyadic 121 1) f
    then reached duration (sec (pos 300))
    else false

-- EnterServiceVMin to EnterServiceFMax, 0.917, 1.05, 59.5 and 60.1, and CheckEnterService.
unfoldable pub check_enter_service : GridState → Bool
check_enter_service g =
    gef g.volts_pu (dyadic 4129800858298745 52)
    && (gef (dyadic 4728779608739021 52) g.volts_pu
        && (gef g.freq_hz (dyadic 119 1) && gef (dyadic 8458323050155213 47) g.freq_hz))

pub data RideThroughState : Type 0 where
  rt_normal rt_riding_through rt_tripped rt_wait_reconnect : RideThroughState

pub record RideThroughResult : Type 0 where
  pub state : RideThroughState
  pub should_trip : Bool
  pub can_reconnect : Bool

-- isNormal: at 0.88 to 1.10, and at 59.0 to 60.5.
unfoldable pub is_normal : GridState → Bool
is_normal g =
    gef g.volts_pu (dyadic 7926335344172073 53)
    && (gef (dyadic 2476979795053773 51) g.volts_pu
        && (gef g.freq_hz (dyadic 59 0) && gef (dyadic 121 1) g.freq_hz))

-- ReconnectDelay.
abbrev pub reconnect_delay : ℤ
reconnect_delay = sec (pos 300)

abbrev rt_result : RideThroughState → Bool → Bool → RideThroughResult
rt_result s trip reconnect = record { state = s; should_trip = trip; can_reconnect = reconnect }

-- The two states of a device in service.
unfoldable pub in_service : GridState → ℤ → RideThroughResult
unfolding check_voltage_trip check_frequency_trip is_normal
in_service g d =
    if is_normal g
    then rt_result rt_normal false false
    else if check_voltage_trip g.volts_pu d || check_frequency_trip g.freq_hz d
    then rt_result rt_tripped true false
    else rt_result rt_riding_through false false

-- EvaluateRideThrough.
unfoldable pub evaluate_ride_through : GridState → ℤ → RideThroughState → RideThroughResult
unfolding in_service is_normal check_enter_service
evaluate_ride_through g d rt_normal = in_service g d
evaluate_ride_through g d rt_riding_through = in_service g d
evaluate_ride_through g d rt_tripped =
    if is_normal g && reached d reconnect_delay
    then rt_result rt_wait_reconnect false true
    else rt_result rt_tripped false false
evaluate_ride_through g d rt_wait_reconnect =
    if check_enter_service g
    then rt_result rt_normal false true
    else rt_result rt_wait_reconnect false false
