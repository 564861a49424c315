-- ===== src/Reservation/Granted.antt =====
-- What cmd/inverterclient/reservation_logic.go lets the aggregator act on.
use ieee_2030_5_client_go.Shared.{
  ◌≡◌, refl, sym, ap, ◌∙◌, subst, Bool, true, false, List, some, String, ◌==◌, arith, ℤ, pos,
  negsuc, ◌+ℤ◌, ◌-ℤ◌, ◌≤ℤ◌, ◌<ℤ◌, ltb_ℤ, ltb_ℤ→lt, int_laws, sec, Bool-cases, Option-cases, inl,
  inr,
}
use ieee_2030_5_client_go.Shared.Float.{
  Float, nan, neg_inf, pos_inf, finite, zero_f, ltf, is_zero_f, negate, abs_f,
}
use ieee_2030_5_client_go.Sep2.{Interval}
use ieee_2030_5_client_go.Reservation.{Quantity, FlowResponse, Facts}
use ieee_2030_5_client_go.Reservation.Request.{toward}
use ieee_2030_5_client_go.Reservation.Answer.{
  AnswerKind, dispatches, GrantTerms, is_live, effective_response, first_answer, clip_start,
  clip_end, clip_to, read_grant, judge_live, judge,
}
use ieee_2030_5_client_go.Reservation.Newest.{Chosen, effective_response-Chosen}

ltf_irrefl : (x : Float) → ltf x x ≡ false
unfolding ltf
ltf_irrefl nan = refl
ltf_irrefl neg_inf = refl
ltf_irrefl pos_inf = refl
ltf_irrefl (finite a) = ground arith

abs_f-abs_f : (x : Float) → abs_f (abs_f x) ≡ abs_f x
unfolding abs_f
abs_f-abs_f nan = refl
abs_f-abs_f neg_inf = refl
abs_f-abs_f pos_inf = refl
abs_f-abs_f (finite (pos n)) = refl
abs_f-abs_f (finite (negsuc n)) = refl

abs_f-negate : (x : Float) → abs_f (negate x) ≡ abs_f x
unfolding abs_f negate ◌-ℤ◌
abs_f-negate nan = refl
abs_f-negate neg_inf = refl
abs_f-negate pos_inf = refl
abs_f-negate (finite (pos n)) = ground arith
abs_f-negate (finite (negsuc n)) = ground arith

negate-negate : (x : Float) → negate (negate x) ≡ x
unfolding negate
negate-negate nan = refl
negate-negate neg_inf = refl
negate-negate pos_inf = refl
negate-negate (finite a) = ap finite (omega int_laws)

abs_f_nonneg : (x : Float) → ltf (abs_f x) zero_f ≡ false
unfolding abs_f ltf
abs_f_nonneg nan = refl
abs_f_nonneg neg_inf = refl
abs_f_nonneg pos_inf = refl
abs_f_nonneg (finite (pos n)) = ground arith
abs_f_nonneg (finite (negsuc n)) = ground arith

toward_magnitude : (e x : Float) → abs_f (toward e x) ≡ abs_f x
toward_magnitude e x = elim (Bool-cases (ltf e zero_f)) [
  | inl n ↦ rw n (abs_f-negate x)
  | inr n ↦ rw n refl
]

toward-toward : (e x : Float) → toward e (toward e x) ≡ x
toward-toward e x = elim (Bool-cases (ltf e zero_f)) [
  | inl n ↦ rw n (negate-negate x)
  | inr n ↦ rw n refl
]

clip_to_limit : (limit x : Float) → ltf limit (clip_to limit x) ≡ false
clip_to_limit limit x = elim (Bool-cases (ltf limit x)) [
  | inl e ↦ rw e (ltf_irrefl limit)
  | inr e ↦ rw e e
]

clip_to_magnitude :
    (l x : Float) → abs_f (clip_to (abs_f l) (abs_f x)) ≡ clip_to (abs_f l) (abs_f x)
clip_to_magnitude l x = elim (Bool-cases (ltf (abs_f l) (abs_f x))) [
  | inl e ↦ rw e (abs_f-abs_f l)
  | inr e ↦ rw e (abs_f-abs_f x)
]

-- The terms keep to the request: a window inside its own that is not empty, an energy in its
-- direction and not above its energy, and a power not above its power, neither of them zero.
pub record IsGrant (rq : Facts) (t : GrantTerms) : Type 0 where
  pub start : rq.from ≤ℤ t.from
  pub window : t.from <ℤ t.until
  pub end : t.until ≤ℤ rq.until
  pub direction : ltf (toward rq.energy_wh t.energy_wh) zero_f ≡ false
  pub energy : ltf (abs_f rq.energy_wh) (abs_f t.energy_wh) ≡ false
  pub power : ltf rq.power_w t.power_w ≡ false
  pub nonzero : is_zero_f t.power_w ≡ false

clip_start_le : (a limit : ℤ) → limit ≤ℤ clip_start a limit
clip_start_le a limit = ground arith

clip_end_le : (a limit : ℤ) → clip_end a limit ≤ℤ limit
clip_end_le a limit = ground arith

read_grant-IsGrant :
    (scaled : ℤ → ℤ → Float) (resp : FlowResponse) (interval : Interval) (energy power : Quantity)
    (rq : Facts) (t : GrantTerms)
    → read_grant scaled resp interval energy power rq ≡ some t
    → IsGrant rq t × (t.response_mrid ≡ resp.mrid)
unfolding read_grant
read_grant-IsGrant scaled resp interval energy power rq t h =
    let gs = sec interval.start in
    let start = clip_start gs rq.from in
    let end = clip_end (gs +ℤ sec (pos interval.duration)) rq.until in
    let wh = scaled energy.value energy.multiplier in
    let w = scaled power.value power.multiplier in
    let wh' = clip_to (abs_f rq.energy_wh) (abs_f wh) in
    let w' = clip_to rq.power_w (abs_f w) in
    let from : t.from ≡ start = ground arith in
    let until : t.until ≡ end = ground arith in
    let energy_is : t.energy_wh ≡ toward rq.energy_wh wh' = ground arith in
    let power_is : t.power_w ≡ w' = ground arith in
    let open_window : ltb_ℤ start end ≡ true = ground arith in
    let some_power : is_zero_f w' ≡ false = ground arith in
    let named : t.response_mrid ≡ resp.mrid = ground arith in
    (
      record {
        start = rw from (clip_start_le gs rq.from);
        window = rw (from, until) (ltb_ℤ→lt start end open_window);
        end = rw until (clip_end_le (gs +ℤ sec (pos interval.duration)) rq.until);
        direction =
            rw (energy_is, toward-toward rq.energy_wh wh', sym (clip_to_magnitude rq.energy_wh wh))
              (abs_f_nonneg wh');
        energy =
            rw (energy_is, toward_magnitude rq.energy_wh wh', clip_to_magnitude rq.energy_wh wh)
              (clip_to_limit (abs_f rq.energy_wh) (abs_f wh));
        power = rw power_is (clip_to_limit rq.power_w (abs_f w));
        nonzero = rw power_is some_power;
      },
      named,
    )

judge_live-dispatches :
    (scaled : ℤ → ℤ → Float) (rq : Facts) (is_late : Bool) (resp : FlowResponse) (kind : AnswerKind)
    (t : GrantTerms)
    → judge_live scaled rq is_late resp ≡ (kind, t)
    → dispatches kind ≡ true
    → IsGrant rq t × (t.response_mrid ≡ resp.mrid)
unfolding judge_live dispatches
judge_live-dispatches scaled rq is_late resp kind t h d = elim (Option-cases resp.interval) [
  | inl e ↦ ground (arith, e, h, d)
  | inr (iv, e) ↦ elim (Bool-cases (iv.duration == 0)) [
    | inl z ↦ ground (arith, e, z, h, d)
    | inr z ↦ elim (Option-cases resp.energy_available) [
      | inl f ↦ ground (arith, e, z, f, h, d)
      | inr (en, f) ↦ elim (Option-cases resp.power_available) [
        | inl g ↦ ground (arith, e, z, f, g, h, d)
        | inr (pw, g) ↦ elim (Option-cases (read_grant scaled resp iv en pw rq)) [
          | inl r ↦ ground (arith, e, z, f, g, r, h, d)
          | inr (u, r) ↦
              let same : u ≡ t = ground (arith, e, z, f, g, r, h, d) in
              read_grant-IsGrant scaled resp iv en pw rq t (r ∙ ap some same)
        ]
      ]
    ]
  ]
]

-- An answer that lets the batteries be dispatched rests on a response of the list: one of the request,
-- neither cancelled nor superseded, than which no other such response is newer. Its terms bear that
-- response's mRID and keep to the request.
pub judge-IsGrant :
    (scaled : ℤ → ℤ → Float) (list : List FlowResponse) (subject : String) (rq : Facts)
    (grace now : ℤ) (kind : AnswerKind) (t : GrantTerms)
    → judge scaled list subject rq grace now ≡ (kind, t)
    → dispatches kind ≡ true
    → (resp : FlowResponse) × Chosen (is_live subject) ◌≤ℤ◌ list (some resp)
      × IsGrant rq t
      × (t.response_mrid ≡ resp.mrid)
unfolding judge dispatches
judge-IsGrant scaled list subject rq grace now kind t h d =
    elim (Option-cases (first_answer list subject)) [
      | inl e ↦ absurd (ground (arith, e, h, d))
      | inr (first, e) ↦ elim (Option-cases (effective_response list subject)) [
        | inl f ↦ absurd (ground (arith, e, f, h, d))
        | inr (resp, f) ↦
            let (is_grant, named) =
              judge_live-dispatches scaled rq (ltb_ℤ (rq.from +ℤ grace) (sec first.creation_time))
                resp kind t (ground (arith, e, f, h)) d in
            let chosen =
              subst (Chosen (is_live subject) ◌≤ℤ◌ list) f
                (effective_response-Chosen list subject) in
            (resp, chosen, is_grant, named)
      ]
    ]
