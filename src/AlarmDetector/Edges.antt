-- ===== src/AlarmDetector/Edges.antt =====
-- Which LogEvents internal/inverter/alarm_detector.go posts.
use ieee_2030_5_client_go.Shared.{
  ℕ, ◌≡◌, refl, ◌∙◌, ap, Bool, true, false, not, ◌&&◌, ◌||◌, List, [], ◌∷◌, Option, none, some,
  String, str_eq, ◌==◌, if◌then◌else◌, arith, Bool-cases, inl, inr,
}
use ieee_2030_5_client_go.Shared.Float.{Float, zero_f, ltf, gef, negate, dyadic}
use ieee_2030_5_client_go.RideThrough.{check_voltage_trip, check_frequency_trip}
use ieee_2030_5_client_go.AlarmDetector.{
  AlarmInputs, AlarmState, LogEvent, PostAnswer, Numerics, AlarmDetector, classify, is_enabled,
  suppress, emit, fire_if_rising, fire_each, edges_of, evaluate, no_alarm, new_alarm_detector,
  log_event_detail_for, log_event_for, is_not_allowed,
}

abbrev Edge : Type 0
Edge = ℕ × (Bool × Bool)

abbrev trips_v : AlarmInputs → Bool
trips_v i = check_voltage_trip i.grid.volts_pu i.abnormal_duration

abbrev trips_f : AlarmInputs → Bool
trips_f i = check_frequency_trip i.grid.freq_hz i.abnormal_duration

-- The reactive power as a share of the rating, without its sign, and the power lost as a share of what
-- it was.
abbrev var_share : Numerics → AlarmInputs → Float
var_share n i =
    let ratio = n.quotient i.reactive_power_var i.rated_var in
    if ltf ratio zero_f then negate ratio else ratio

abbrev power_drop : Numerics → AlarmInputs → Float
power_drop n i = n.quotient (n.minus i.pre_disturbance_pw i.active_power_w) i.pre_disturbance_pw

-- The classes, each with its code and what its alarm is: a voltage or a frequency for too long below or
-- above, a tenth of the reactive rating, a loss of a twentieth of the power, an inverter that is off.
abbrev classes : List (ℕ × (Numerics → AlarmInputs → Bool))
classes =
    (1, λ n i. trips_v i && ltf i.grid.volts_pu (dyadic 1 0))
    ∷ (2, λ n i. trips_v i && not (ltf i.grid.volts_pu (dyadic 1 0)))
    ∷ (3, λ n i. trips_f i && ltf i.grid.freq_hz (dyadic 60 0))
    ∷ (4, λ n i. trips_f i && not (ltf i.grid.freq_hz (dyadic 60 0)))
    ∷ (5, λ n i. ltf zero_f i.rated_var && gef (var_share n i) (dyadic 3602879701896397 55))
    ∷ (
      6,
      λ n i. ltf zero_f i.pre_disturbance_pw && gef (power_drop n i) (dyadic 3602879701896397 56),
    )
    ∷ (7, λ n i. not i.connected || not i.energized)
    ∷ []

-- No alarm is there before the first inputs.
abbrev before : Numerics → (Numerics → AlarmInputs → Bool) → Option AlarmInputs → Bool
before n p none = false
before n p (some i) = p n i

abbrev edges_between :
    Numerics
    → Option AlarmInputs
    → AlarmInputs
    → List (ℕ × (Numerics → AlarmInputs → Bool))
    → List Edge
edges_between n was i [] = []
edges_between n was i ((code, p) ∷ ps) = (code, (before n p was, p n i)) ∷ edges_between n was i ps

-- The codes of the alarms that begin and are not suppressed; none where no post is possible.
abbrev pub due : Bool → (ℕ → Bool) → List Edge → List ℕ
due on suppressed [] = []
due on suppressed ((code, (prev, next)) ∷ edges) =
    if on && (next && (not prev && not (suppressed code)))
    then code ∷ due on suppressed edges
    else due on suppressed edges

abbrev has_code : ℕ → List Edge → Bool
has_code c [] = false
has_code c ((code, e) ∷ edges) = c == code || has_code c edges

-- No code twice.
abbrev Unrepeated : List Edge → Type 0
Unrepeated [] = Unit
Unrepeated ((code, e) ∷ edges) = (has_code code edges ≡ false) × Unrepeated edges

and_false : (b x y : Bool) → x ≡ false → (b && x || y) ≡ y
and_false true x y h = rw h refl
and_false false x y h = refl

-- A code suppressed, or not, is no matter to the others.
due_suppress :
    (on b : Bool) (c : ℕ) (suppressed : ℕ → Bool) (edges : List Edge)
    → has_code c edges ≡ false
    → due on (λ k. b && (c == k) || suppressed k) edges ≡ due on suppressed edges
due_suppress on b c suppressed [] h = refl
due_suppress on b c suppressed ((code, (prev, next)) ∷ edges) h =
    let other : (c == code) ≡ false = ground (arith, h) in
    let rest : has_code c edges ≡ false = ground (arith, h) in
    let same : (b && (c == code) || suppressed code) ≡ suppressed code =
      and_false b (c == code) (suppressed code) other in
    rw (same, due_suppress on b c suppressed edges rest) refl

abbrev pub Emitter : Type 0 → Type 0
Emitter W = String → LogEvent → W → PostAnswer × W

module _ {W : Type 0} (n : Numerics) (post : Emitter W) (href : String) where
  -- The codes suppressed, and the world.
  abbrev pub Reached : Type 0
  Reached = (ℕ → Bool) × W

  abbrev pub event_of : AlarmInputs → ℕ → LogEvent
  event_of i code = record {
    function_set = n.function_set_der;
    code = code;
    profile_id = 2;
    details = log_event_detail_for n code i;
  }

  -- The post of a code's LogEvent, and its code suppressed if the server does not allow the post.
  abbrev pub post_code : AlarmInputs → ℕ → Reached → Reached
  post_code i code (suppressed, w) =
      let (answer, w1) = post href (event_of i code) w in
      ((λ c. is_not_allowed answer && (code == c) || suppressed c), w1)

  abbrev pub post_codes : AlarmInputs → List ℕ → Reached → Reached
  post_codes i [] r = r
  post_codes i (code ∷ codes) r = post_codes i codes (post_code i code r)

  -- The posts of a list of inputs, after those that were there before.
  abbrev pub posts_of : Option AlarmInputs → List AlarmInputs → Reached → Reached
  posts_of was [] r = r
  posts_of was (i ∷ is) r =
      posts_of (some i) is
        (post_codes i (due (not (str_eq href "")) r.0 (edges_between n was i classes)) r)

  -- Evaluate for each of a list of inputs.
  abbrev pub evaluate_each : List AlarmInputs → AlarmDetector W → W → AlarmDetector W × W
  evaluate_each [] d w = (d, w)
  evaluate_each (i ∷ is) d w = let (d1, w1) = evaluate n i d w in evaluate_each is d1 w1

  abbrev at : AlarmState → Reached → AlarmDetector W × W
  at prev (suppressed, w) = (
    record {
      emitter = some post;
      log_event_list_href = href;
      prev = prev;
      suppressed = suppressed;
    },
    w,
  )

  fire_if_rising_lem :
      (i : AlarmInputs) (s : AlarmState) (prev next : Bool) (code : ℕ) (r : Reached)
      → fire_if_rising n prev next code i (at s r).0 (at s r).1
        ≡ at s (
            if not (str_eq href "") && (next && (not prev && not (r.0 code)))
            then post_code i code r
            else r)
  unfolding fire_if_rising emit suppress is_enabled log_event_for
  fire_if_rising_lem i s prev next code r =
      elim (Bool-cases (not (str_eq href "") && (next && (not prev && not (r.0 code))))) [
        | inl e ↦
            let loud : (not next || (prev || (r.0 code || not (not (str_eq href ""))))) ≡ false =
              ground (arith, e) in
            rw (e, loud) refl
        | inr e ↦
            let quiet : (not next || (prev || (r.0 code || not (not (str_eq href ""))))) ≡ true =
              ground (arith, e) in
            rw (e, quiet) refl
      ]

  fire_each_lem :
      (i : AlarmInputs) (s : AlarmState) (edges : List Edge) (r : Reached)
      → Unrepeated edges
      → fire_each n edges i (at s r).0 (at s r).1
        ≡ at s (post_codes i (due (not (str_eq href "")) r.0 edges) r)
  unfolding fire_each
  fire_each_lem i s [] r h = refl
  fire_each_lem i s ((code, (prev, next)) ∷ edges) r (fresh, h) =
      let on = not (str_eq href "") in
      let first = fire_if_rising_lem i s prev next code r in
      ap (λ (x : AlarmDetector W × W). fire_each n edges i x.0 x.1) first
      ∙ (elim (Bool-cases (on && (next && (not prev && not (r.0 code))))) [
        | inl e ↦
            let r1 = post_code i code r in
            let later = fire_each_lem i s edges r1 h in
            let answer = (post href (event_of i code) r.1).0 in
            rw e (
              later
              ∙ ap (λ codes. at s (post_codes i codes r1))
                  (due_suppress on (is_not_allowed answer) code r.0 edges fresh))
        | inr e ↦ rw e (fire_each_lem i s edges r h)
      ])

  -- What a detector remembers of the last inputs.
  abbrev remembered : Option AlarmInputs → AlarmState
  remembered none = no_alarm
  remembered (some i) = classify n i

  edges_lem :
      (was : Option AlarmInputs) (i : AlarmInputs)
      → edges_of (remembered was) (classify n i) ≡ edges_between n was i classes
  unfolding classify
  edges_lem none i = refl
  edges_lem (some i0) i = refl

  evaluate_lem :
      (was : Option AlarmInputs) (i : AlarmInputs) (r : Reached)
      → let d = at (remembered was) r in
        evaluate n i d.0 d.1
        ≡ at
            (classify n i)
            (post_codes i (due (not (str_eq href "")) r.0 (edges_between n was i classes)) r)
  unfolding evaluate
  evaluate_lem was i r =
      let edges = edges_between n was i classes in
      let fired =
        ap (λ es. fire_each n es i (at (remembered was) r).0 r.1) (edges_lem was i)
        ∙ fire_each_lem i (remembered was) edges r
            (refl, (refl, (refl, (refl, (refl, (refl, (refl, tt))))))) in
      ap (λ (x : AlarmDetector W × W). (record x.0 { prev = classify n i }, x.1)) fired

  evaluate_each_lem :
      (was : Option AlarmInputs) (is : List AlarmInputs) (r : Reached)
      → let (d', w') = evaluate_each is (at (remembered was) r).0 r.1 in
        (◌≡◌ {A = Reached} (d'.suppressed, w') (posts_of was is r))
  evaluate_each_lem was [] r = refl
  evaluate_each_lem was (i ∷ is) r =
      let edges = edges_between n was i classes in
      let r1 = post_codes i (due (not (str_eq href "")) r.0 edges) r in
      ap
        (λ (x : AlarmDetector W × W).
          let (d', w') = evaluate_each is x.0 x.1 in (d'.suppressed, w'))
        (evaluate_lem was i r)
      ∙ evaluate_each_lem (some i) is r1

  -- Whatever inputs come to a new detector with an emitter, one after the other: it calls the emitter,
  -- with the detector's href, for exactly those classes, in the order of their codes, that are in alarm
  -- with the inputs and were not with the inputs before, or are so with the first ones, and whose code
  -- is not suppressed; a code is suppressed once the server has answered one of its posts that the
  -- method is not allowed. Where the href is empty it calls nothing.
  pub evaluate_each-posts_of :
      (is : List AlarmInputs) (w : W)
      → let (d', w') = evaluate_each is (new_alarm_detector (some post) href) w in
        ◌≡◌ {A = Reached} (d'.suppressed, w') (posts_of none is ((λ c. false), w))
  unfolding new_alarm_detector
  evaluate_each-posts_of is w = evaluate_each_lem none is ((λ c. false), w)
