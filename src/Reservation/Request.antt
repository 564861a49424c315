-- ===== src/Reservation/Request.antt =====
-- The building of a request in cmd/inverterclient/reservation_logic.go, and what an answer is read
-- against. The conversion of an encoded quantity to a float64, `scaled`, is a parameter.
use ieee_2030_5_client_go.Shared.{
  ℕ, ◌/◌, ◌^◌, not, ◌||◌, Option, none, some, String, if◌then◌else◌, ℤ, pos, negsuc, ◌+ℤ◌, ltb_ℤ,
  sec,
}
use ieee_2030_5_client_go.Shared.Float.{
  Float, zero_f, ltf, is_nan, is_zero_f, not_positive, negate, abs_f,
}
use ieee_2030_5_client_go.Reservation.{
  Quantity, FlowRequest, request_requested, Settings, Overlay, Facts,
}
use ieee_2030_5_client_go.Reservation.Encoding.{signed_energy, active_power}

abbrev or_keep {ℓ} : {A : Type ℓ} → Option A → A → A
or_keep none a = a
or_keep (some b) a = b

-- frqOverlay.apply.
unfoldable pub apply_overlay : Overlay → Settings → Settings
apply_overlay o s = record s {
  energy_wh = or_keep o.energy_wh s.energy_wh;
  power_w = or_keep o.power_w s.power_w;
  start_in_s = or_keep o.start_in_s s.start_in_s;
  duration_s = or_keep o.duration_s s.duration_s;
}

pub data BuildError : Type 0 where
  zero_energy power_not_positive bad_duration bad_grace start_above_limit : BuildError
  start_too_soon energy_does_not_fit power_does_not_fit : BuildError

pub data Built : Type 0 where
  built : FlowRequest → Built
  refused : BuildError → Built

-- Time.Unix: the second that an instant lies in.
unfoldable pub unix : ℤ → ℤ
unix (pos n) = pos (n / 10 ^ 9)
unix (negsuc n) = negsuc (n / 10 ^ 9)

abbrev pub max_start_in_s : ℤ
max_start_in_s = pos 2147483647

abbrev pub max_uint32 : ℤ
max_uint32 = pos 4294967295

-- The switch at the head of buildFlowRequest.
unfoldable pub check_settings : Settings → Option BuildError
check_settings s =
    if is_zero_f s.energy_wh || is_nan s.energy_wh
    then some zero_energy
    else if not_positive s.power_w || is_nan s.power_w
    then some power_not_positive
    else if not (ltb_ℤ (pos 0) s.duration_s) || ltb_ℤ max_uint32 s.duration_s
    then some bad_duration
    else if not (ltb_ℤ (pos 0) s.grace_s) || not (ltb_ℤ s.grace_s s.duration_s)
    then some bad_grace
    else if ltb_ℤ max_start_in_s s.start_in_s
    then some start_above_limit
    else if not (ltb_ℤ s.min_lead_s s.start_in_s)
    then some start_too_soon
    else none

abbrev pub magnitude_of : ℤ → ℕ
magnitude_of (pos n) = n
magnitude_of (negsuc n) = 0

-- `dir * x`, where dir is 1 or -1 by the sign of the energy.
abbrev pub toward : Float → Float → Float
toward energy_wh x = if ltf energy_wh zero_f then negate x else x

unfoldable pub request_of : Settings → ℤ → String → Quantity → Quantity → FlowRequest
request_of s now mrid energy power = record {
  href = "";
  mrid = mrid;
  creation_time = unix now;
  energy = energy;
  power = power;
  interval = record {
    start = unix (now +ℤ sec s.start_in_s);
    duration = magnitude_of s.duration_s;
  };
  status_time = unix now;
  status = request_requested;
}

-- buildFlowRequest.
unfoldable pub build_flow_request : Settings → ℤ → String → Built
build_flow_request s now mrid = elim (check_settings s) [
  | some e ↦ refused e
  | none ↦ elim (signed_energy s.energy_wh) [
    | none ↦ refused energy_does_not_fit
    | some energy ↦ elim (active_power (toward s.energy_wh s.power_w)) [
      | none ↦ refused power_does_not_fit
      | some power ↦ built (request_of s now mrid energy power)
    ]
  ]
]

-- factsOf.
unfoldable pub facts_of : (ℤ → ℤ → Float) → FlowRequest → Facts
facts_of scaled req = record {
  from = sec req.interval.start;
  until = sec req.interval.start +ℤ sec (pos req.interval.duration);
  energy_wh = scaled req.energy.value req.energy.multiplier;
  power_w = abs_f (scaled req.power.value req.power.multiplier);
}
