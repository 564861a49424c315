-- ===== src/Reservation/Answer.antt =====
-- The answer to a request, in cmd/inverterclient/reservation_logic.go: which response is read, what
-- it grants, and where the request stands.
use ieee_2030_5_client_go.Shared.{
  ℕ, Bool, true, false, not, ◌&&◌, ◌||◌, List, [], ◌∷◌, Option, none, some, String, str_eq, ◌==◌,
  if◌then◌else◌, ℤ, pos, ◌+ℤ◌, ltb_ℤ, eqb_ℤ, sec,
}
use ieee_2030_5_client_go.Shared.Float.{Float, zero_f, ltf, is_zero_f, abs_f}
use ieee_2030_5_client_go.Sep2.{Interval, status_cancelled}
use ieee_2030_5_client_go.Reservation.{Quantity, FlowResponse, Facts}
use ieee_2030_5_client_go.Reservation.Request.{toward}

-- answerKind.
pub data AnswerKind : Type 0 where
  pending granted denied expired invalid late revoked : AnswerKind

unfoldable pub dispatches : AnswerKind → Bool
dispatches granted = true
dispatches late = true
dispatches _ = false

-- How a response differed from the request: the notes of readGrant, without their numbers.
pub data Note : Type 0 where
  energy_sign power_sign energy_clipped power_clipped interval_clipped : Note

-- grantTerms.
pub record GrantTerms : Type 0 where
  pub response_mrid : String
  pub from : ℤ
  pub until : ℤ
  pub energy_wh : Float
  pub power_w : Float
  pub clipped : List Note

-- grantTerms{}; its times are the zero Time, which is not looked at.
abbrev pub no_terms : GrantTerms
no_terms = record {
  response_mrid = "";
  from = pos 0;
  until = pos 0;
  energy_wh = zero_f;
  power_w = zero_f;
  clipped = [];
}

-- EventStatusSuperseded.
abbrev pub status_superseded : ℕ
status_superseded = 4

-- The event statuses that effectiveResponse passes over.
abbrev pub is_withdrawn : Option ℕ → Bool
is_withdrawn none = false
is_withdrawn (some st) = st == status_cancelled || (st == 3 || st == status_superseded)

abbrev pub is_live : String → FlowResponse → Bool
is_live subject r = str_eq r.subject subject && not (is_withdrawn r.status)

-- The loops of effectiveResponse and firstAnswer, from a response found so far: a response that passes
-- `p` replaces the one before it where its creation time beats the other's.
unfoldable pub choose_from :
    (FlowResponse → Bool)
    → (ℤ → ℤ → Bool)
    → Option FlowResponse
    → List FlowResponse
    → Option FlowResponse
choose_from p beats found [] = found
choose_from p beats none (r ∷ rs) = choose_from p beats (if p r then some r else none) rs
choose_from p beats (some best) (r ∷ rs) =
    choose_from p beats (some (if p r && beats r.creation_time best.creation_time then r else best))
      rs

abbrev pub not_before : ℤ → ℤ → Bool
not_before a b = not (ltb_ℤ a b)

-- effectiveResponse.
unfoldable pub effective_response : List FlowResponse → String → Option FlowResponse
effective_response list subject = choose_from (is_live subject) not_before none list

-- firstAnswer.
unfoldable pub first_answer : List FlowResponse → String → Option FlowResponse
first_answer list subject = choose_from (λ r. str_eq r.subject subject) ltb_ℤ none list

-- The later of two instants, the earlier, and the lesser of a magnitude and its limit, as the ifs of
-- readGrant take them.
abbrev pub clip_start : ℤ → ℤ → ℤ
clip_start start limit = if ltb_ℤ start limit then limit else start

abbrev pub clip_end : ℤ → ℤ → ℤ
clip_end end limit = if ltb_ℤ limit end then limit else end

abbrev pub clip_to : Float → Float → Float
clip_to limit x = if ltf limit x then limit else x

abbrev note_if : Bool → Note → List Note → List Note
note_if b n notes = if b then n ∷ notes else notes

-- readGrant, on the interval, energy and power that the response carries.
unfoldable pub read_grant :
    (ℤ → ℤ → Float) → FlowResponse → Interval → Quantity → Quantity → Facts → Option GrantTerms
read_grant scaled resp interval energy power rq =
    let gs = sec interval.start in
    let ge = gs +ℤ sec (pos interval.duration) in
    let start = clip_start gs rq.from in
    let end = clip_end ge rq.until in
    let granted_wh = scaled energy.value energy.multiplier in
    let granted_w = scaled power.value power.multiplier in
    let wh = abs_f granted_wh in
    let w = abs_f granted_w in
    let wh' = clip_to (abs_f rq.energy_wh) wh in
    let w' = clip_to rq.power_w w in
    if is_zero_f wh || is_zero_f w || not (ltb_ℤ start end) || is_zero_f wh' || is_zero_f w'
    then none
    else some (record {
      response_mrid = resp.mrid;
      from = start;
      until = end;
      energy_wh = toward rq.energy_wh wh';
      power_w = w';
      clipped = note_if (ltf (toward rq.energy_wh granted_wh) zero_f) energy_sign (
          note_if (ltf (toward rq.energy_wh granted_w) zero_f) power_sign (
            note_if (ltf (abs_f rq.energy_wh) wh) energy_clipped (
              note_if (ltf rq.power_w w) power_clipped
                (note_if (not (eqb_ℤ start gs && eqb_ℤ end ge)) interval_clipped []))));
    })

abbrev pub only_mrid : FlowResponse → GrantTerms
only_mrid r = record no_terms { response_mrid = r.mrid }

-- The part of judge on the live answer.
unfoldable pub judge_live : (ℤ → ℤ → Float) → Facts → Bool → FlowResponse → AnswerKind × GrantTerms
judge_live scaled rq is_late resp = elim resp.interval [
  | none ↦ (invalid, only_mrid resp)
  | some interval ↦
      if interval.duration == 0 then (denied, only_mrid resp) else (elim resp.energy_available [
        | none ↦ (invalid, only_mrid resp)
        | some energy ↦ elim resp.power_available [
          | none ↦ (invalid, only_mrid resp)
          | some power ↦ elim (read_grant scaled resp interval energy power rq) [
            | none ↦ (invalid, only_mrid resp)
            | some t ↦ if is_late then (late, t) else (granted, t)
          ]
        ]
      ])
]

-- judge.
unfoldable pub judge :
    (ℤ → ℤ → Float) → List FlowResponse → String → Facts → ℤ → ℤ → AnswerKind × GrantTerms
judge scaled list subject rq grace now = elim (first_answer list subject) [
  | none ↦ if ltb_ℤ now (rq.from +ℤ grace) then (pending, no_terms) else (expired, no_terms)
  | some first ↦ elim (effective_response list subject) [
    | none ↦ (revoked, no_terms)
    | some resp ↦ judge_live scaled rq (ltb_ℤ (rq.from +ℤ grace) (sec first.creation_time)) resp
  ]
]
