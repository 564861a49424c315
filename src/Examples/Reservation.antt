-- ===== src/Examples/Reservation.antt =====
-- The theorems about the flow reservation at one request of a kilowatt-hour and its answers.
use ieee_2030_5_client_go.Shared.{
  ℕ, ◌+◌, ◌*◌, ◌^◌, ◌≡◌, ◌↔◌, refl, true, false, List, [], ◌∷◌, none, some, is_some, ℤ, pos, ◌+ℤ◌,
  ◌-ℤ◌, ◌≤ℤ◌, ◌<ℤ◌, sec,
}
use ieee_2030_5_client_go.Shared.Float.{
  Float, nan, finite, round_f, ltf, is_zero_f, not_positive, negate, abs_f,
}
use ieee_2030_5_client_go.Reservation.{Quantity, FlowRequest, FlowResponse, Settings, Facts}
use ieee_2030_5_client_go.Reservation.Encoding.{scale_down, power_of, active_power, signed_energy}
use ieee_2030_5_client_go.Reservation.Encoded.{
  IsEncodable, Fits, decode, active_power_iff, active_power-decode,
}
use ieee_2030_5_client_go.Reservation.Request.{
  build_flow_request, check_settings, toward, unix, request_of, facts_of, apply_overlay,
}
use ieee_2030_5_client_go.Reservation.Requested.{IsSound, build_flow_request_lem}
use ieee_2030_5_client_go.Reservation.Answer.{
  granted, pending, GrantTerms, no_terms, is_live, choose_from, effective_response, first_answer,
  read_grant, judge_live, judge, dispatches,
}
use ieee_2030_5_client_go.Reservation.Newest.{Chosen}
use ieee_2030_5_client_go.Reservation.Granted.{IsGrant, judge-IsGrant}
use ieee_2030_5_client_go.Reservation.Reserver.{Client, Config, Current, Reserver, transient, write}
use ieee_2030_5_client_go.Reservation.Reading.{
  poll, acknowledge, acknowledge_all, acknowledge_each, add_once, finish, granted_by, handle_read,
  is_received_required, judged, newest_response_mrid, owing, poll_cur, remove, settled, update,
}
use ieee_2030_5_client_go.Reservation.Withdrawing.{
  retry_withdrawals, retry_stale, trigger, after_overlay, after_mrid, after_build, after_post,
  follow, new_request, replace_old,
}
use ieee_2030_5_client_go.Reservation.Withdrawn.{IsSound as IsSoundState}
use ieee_2030_5_client_go.Reservation.Backoff.{IsTidy}
use ieee_2030_5_client_go.Reservation.Sequence.{
  triggering, withdrawing, polling, calls, calls-IsSound, calls-IsTidy, call,
}

-- A whole number as a float64.
abbrev whole : ℕ → Float
whole n = finite (pos (n * 2 ^ 1074))

abbrev by_ten : ℤ → ℤ → Float
by_ten (pos n) (pos m) = whole (n * 10 ^ m)
by_ten _ _ = nan

-- 50 kW is beyond 16 bits, and is sent as 5000 times ten.
abbrev fifty_kw : Quantity
fifty_kw = record { multiplier = pos 1; value = pos 5000 }

active_power_iff_example :
    (is_some (active_power (whole 50000)) ≡ true)
    ↔ ((n : ℤ) × (round_f (whole 50000) ≡ some n) × IsEncodable n)
active_power_iff_example = active_power_iff (whole 50000)

active_power-decode_example : (round_f (whole 50000) ≡ some (decode fifty_kw)) × Fits fifty_kw
unfolding active_power power_of scale_down round_f
active_power-decode_example = active_power-decode (whole 50000) fifty_kw refl

abbrev settings : Settings
settings = record {
  energy_wh = whole 1000;
  power_w = whole 500;
  start_in_s = pos 3600;
  duration_s = pos 7200;
  min_lead_s = pos 60;
  grace_s = pos 300;
}

abbrev request : FlowRequest
request =
    request_of settings (sec (pos 1000)) "request" (record { multiplier = pos 0; value = pos 1000 })
      (record { multiplier = pos 0; value = pos 500 })

build_flow_request_lem_example :
    let facts = facts_of by_ten request in
    IsSound settings
    × (sec (pos 1000) +ℤ sec settings.min_lead_s <ℤ facts.from)
    × (facts.until ≡ facts.from +ℤ sec settings.duration_s)
    × (round_f settings.energy_wh ≡ some request.energy.value)
    × (request.energy.multiplier ≡ pos 0)
    × (round_f (toward settings.energy_wh settings.power_w) ≡ some (decode request.power))
    × Fits request.power
unfolding build_flow_request check_settings signed_energy active_power power_of scale_down round_f
    ltf is_zero_f not_positive
build_flow_request_lem_example =
    build_flow_request_lem by_ten settings (sec (pos 1000)) "request" request refl

-- An answer that grants half of the energy.
abbrev answer : FlowResponse
answer = record {
  mrid = "answer";
  subject = "request";
  creation_time = pos 2000;
  status = some 1;
  interval = some (record { start = pos 4600; duration = 7200 });
  energy_available = some (record { multiplier = pos 0; value = pos 500 });
  power_available = some (record { multiplier = pos 0; value = pos 500 });
  reply_to = "/rsp";
  response_required = some 1;
}

abbrev revoked_answer : FlowResponse
revoked_answer = record answer { mrid = "earlier"; creation_time = pos 1500; status = some 2 }

abbrev answers : List FlowResponse
answers = revoked_answer ∷ (answer ∷ [])

abbrev rq : Facts
rq = record {
  from = sec (pos 4600);
  until = sec (pos 11800);
  energy_wh = whole 1000;
  power_w = whole 500;
}

abbrev terms : GrantTerms
terms = (judge by_ten answers "request" rq (sec (pos 300)) (sec (pos 2500))).1

judge-IsGrant_example :
    (resp : FlowResponse) × Chosen (is_live "request") ◌≤ℤ◌ answers (some resp)
    × IsGrant rq terms
    × (terms.response_mrid ≡ resp.mrid)
unfolding judge judge_live read_grant first_answer effective_response choose_from ltf is_zero_f
    abs_f dispatches sec ◌+ℤ◌
judge-IsGrant_example =
    judge-IsGrant by_ten answers "request" rq (sec (pos 300)) (sec (pos 2500)) granted terms refl
      refl

-- A server that grants what is asked and takes no withdrawal, in a world that counts seconds.
abbrev server : Client ℕ
server = record {
  scaled = by_ten;
  now = λ w. (sec (pos w), w + 60);
  new_mrid = λ lfdi now w. (some "request", w);
  consume_overlay = λ w.
      (some (record { energy_wh = none; power_w = none; start_in_s = none; duration_s = none }), w);
  post_request = λ href req w. (some "/frq/1", w);
  put_request = λ href req w. (some transient, w);
  get_responses = λ href w. (some (answers, 2), w);
  post_receipt = λ href receipt w. (true, w);
}

abbrev config : Config
config = record {
  self_lfdi = "self";
  req_href = "/frq";
  resp_href = "/frp";
  settings = settings;
  poll_s = pos 300;
}

abbrev blank : Current
blank = record {
  facts = rq;
  mrid = "";
  href = "";
  req = request;
  kind = pending;
  terms = no_terms;
  resp_mrid = "";
  withdrawn = false;
  done = false;
  acked = [];
  owed = [];
}

abbrev fresh_reserver : Reserver
fresh_reserver = record {
  heap = λ i. blank;
  fresh = 0;
  cur = none;
  next_poll = pos 0;
  stale = [];
  grant = none;
}

calls-IsSound_example :
    IsSoundState
      (calls server config (triggering ∷ (polling ∷ (withdrawing ∷ []))) fresh_reserver 1000).0
calls-IsSound_example =
    calls-IsSound server config (triggering ∷ (polling ∷ (withdrawing ∷ []))) fresh_reserver 1000 tt

calls-IsTidy_example :
    IsTidy config
      (calls server config
        (triggering ∷ (withdrawing ∷ (polling ∷ [])))
        fresh_reserver
        1000).0.stale
calls-IsTidy_example =
    calls-IsTidy server config (triggering ∷ (withdrawing ∷ (polling ∷ []))) fresh_reserver 1000 tt

-- The poll after the post installs the grant of the answer.
granted_test :
    is_some (calls server config (triggering ∷ (polling ∷ [])) fresh_reserver 1000).0.grant ≡ true
unfolding calls call poll acknowledge acknowledge_all acknowledge_each add_once finish granted_by
    handle_read is_received_required judged newest_response_mrid owing poll_cur remove settled
    update retry_withdrawals retry_stale trigger after_overlay after_mrid after_build after_post
    follow new_request replace_old apply_overlay write build_flow_request check_settings is_zero_f
    not_positive signed_energy round_f active_power power_of scale_down ltf choose_from dispatches
    effective_response first_answer judge judge_live read_grant facts_of request_of unix abs_f
    negate sec ◌+ℤ◌ ◌-ℤ◌
granted_test = refl
