-- ===== src/Reservation/Newest.antt =====
-- Which response cmd/inverterclient/reservation_logic.go reads as the answer, and which as the first.
use ieee_2030_5_client_go.Shared.{
  ◌≡◌, refl, sym, subst, Bool, true, false, List, [], ◌∷◌, Option, none, some, String, str_eq,
  arith, ℤ, ◌≤ℤ◌, ltb_ℤ, All, Bool-cases, inl, inr, ◌⊎◌,
}
use ieee_2030_5_client_go.Reservation.{FlowResponse}
use ieee_2030_5_client_go.Reservation.Answer.{
  is_live, choose_from, not_before, effective_response, first_answer,
}

-- A response of the list, at its place.
pub data In (r : FlowResponse) : List FlowResponse → Type 0 where
  here : {rs : List FlowResponse} → In r (r ∷ rs)
  there : {s : FlowResponse} {rs : List FlowResponse} → In r rs → In r (s ∷ rs)

-- The choice of `p` by creation time: none if no response of the list passes, and otherwise one that
-- passes and that the others that pass do not outrank.
abbrev pub Chosen :
    (FlowResponse → Bool) → (ℤ → ℤ → Type 0) → List FlowResponse → Option FlowResponse → Type 0
Chosen p ranks list none = All (λ r. p r ≡ false) list
Chosen p ranks list (some best) =
    In best list
    × (p best ≡ true)
    × All (λ r. (p r ≡ false) ⊎ ranks r.creation_time best.creation_time) list

later_place :
    {r best s : FlowResponse} {rs : List FlowResponse}
    → (r ≡ best) ⊎ In r rs
    → (r ≡ best) ⊎ In r (s ∷ rs)
later_place (inl e) = inl e
later_place (inr i) = inr (there i)

own_place : {r s : FlowResponse} {rs : List FlowResponse} → (r ≡ s) ⊎ In r rs → In r (s ∷ rs)
own_place {r} {s} {rs} (inl e) = subst (λ x. In x (s ∷ rs)) (sym e) here
own_place (inr i) = there i

Chosen-skip :
    (p : FlowResponse → Bool) (ranks : ℤ → ℤ → Type 0) (s : FlowResponse) (rs : List FlowResponse)
    (o : Option FlowResponse)
    → p s ≡ false
    → Chosen p ranks rs o
    → Chosen p ranks (s ∷ rs) o
Chosen-skip p ranks s rs none fails c = (fails, c)
Chosen-skip p ranks s rs (some best) fails (place, passes, all) =
    (there place, passes, (inl fails, all))

module _ (p : FlowResponse → Bool) (beats : ℤ → ℤ → Bool) (ranks : ℤ → ℤ → Type 0)
    (same : (a : ℤ) → ranks a a) (chain : (a b c : ℤ) → ranks a b → ranks b c → ranks a c)
    (won : (a b : ℤ) → beats a b ≡ true → ranks b a)
    (lost : (a b : ℤ) → beats a b ≡ false → ranks a b) where
  -- The choice from a response that passes: it or a later one, ranked above all that pass.
  choose_from-some :
      (best : FlowResponse) (rs : List FlowResponse)
      → p best ≡ true
      → (r : FlowResponse) × (choose_from p beats (some best) rs ≡ some r)
        × ((r ≡ best) ⊎ In r rs)
        × (p r ≡ true)
        × ranks best.creation_time r.creation_time
        × All (λ s. (p s ≡ false) ⊎ ranks s.creation_time r.creation_time) rs
  unfolding choose_from
  choose_from-some best [] h = (best, refl, inl refl, h, same _, tt)
  choose_from-some best (s ∷ rs) h = elim (Bool-cases (p s)) [
    | inr fails ↦
        let (r, e, place, passes, above, all) = choose_from-some best rs h in
        (r, rw fails e, later_place place, passes, above, (inl fails, all))
    | inl ok ↦ elim (Bool-cases (beats s.creation_time best.creation_time)) [
      | inr keeps ↦
          let (r, e, place, passes, above, all) = choose_from-some best rs h in
          (
            r,
            rw (ok, keeps) e,
            later_place place,
            passes,
            above,
            (inr (chain _ best.creation_time _ (lost _ _ keeps) above), all),
          )
      | inl takes ↦
          let (r, e, place, passes, above, all) = choose_from-some s rs ok in
          (
            r,
            rw (ok, takes) e,
            inr (own_place place),
            passes,
            chain _ s.creation_time _ (won _ _ takes) above,
            (inr above, all),
          )
    ]
  ]

  choose_from-Chosen :
      (list : List FlowResponse) → Chosen p ranks list (choose_from p beats none list)
  unfolding choose_from
  choose_from-Chosen [] = tt
  choose_from-Chosen (s ∷ rs) = elim (Bool-cases (p s)) [
    | inl ok ↦
        let (r, e, place, passes, above, all) = choose_from-some s rs ok in
        rw (ok, e) (own_place place, passes, (inr above, all))
    | inr fails ↦ rw fails (Chosen-skip p ranks s rs _ fails (choose_from-Chosen rs))
  ]

-- The response that is read as the answer is of the request and neither cancelled nor superseded, and
-- no such response of the list is newer; none means that there is no such response.
pub effective_response-Chosen :
    (list : List FlowResponse) (subject : String)
    → Chosen (is_live subject) ◌≤ℤ◌ list (effective_response list subject)
unfolding effective_response
effective_response-Chosen list subject =
    choose_from-Chosen (is_live subject) not_before ◌≤ℤ◌ (λ a. omega arith)
      (λ a b c h k. omega (arith, h, k)) (λ a b h. ground arith) (λ a b h. ground arith) list

-- The first answer is of the request, and no response of the request is older.
pub first_answer-Chosen :
    (list : List FlowResponse) (subject : String)
    → Chosen (λ r. str_eq r.subject subject) (λ a b. b ≤ℤ a) list (first_answer list subject)
unfolding first_answer
first_answer-Chosen list subject =
    choose_from-Chosen (λ r. str_eq r.subject subject) ltb_ℤ (λ a b. b ≤ℤ a) (λ a. omega arith)
      (λ a b c h k. omega (arith, h, k)) (λ a b h. ground arith) (λ a b h. ground arith) list
