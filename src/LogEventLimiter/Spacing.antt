-- ===== src/LogEventLimiter/Spacing.antt =====
-- How far apart internal/inverter/log_event_ratelimiter.go lets the events of one code be.
use ieee_2030_5_client_go.Shared.{
  ℕ, ◌≡◌, refl, sym, ◌∙◌, ap, subst, true, false, ◌&&◌, List, [], ◌∷◌, some, ◌==◌, if◌then◌else◌,
  arith, ℤ, pos, ◌+ℤ◌, ◌-ℤ◌, ◌≤ℤ◌, ◌<ℤ◌, ltb_ℤ, lt→ltb_ℤ, ltb_ℤ→le, int_laws, Bool-cases, inl, inr,
}
use ieee_2030_5_client_go.Shared.Map.{lookup, lookup-insert, nat_eq, nat_beq_iff}
use ieee_2030_5_client_go.LogEventLimiter.{Limiter, new_limiter, allow_event}

-- The times at which events of a code are let through, among calls for any codes.
unfoldable pub emitted : ℕ → List (ℕ × ℤ) → Limiter → List ℤ
emitted code [] l = []
emitted code ((c, now) ∷ calls) l =
    let (ok, l') = allow_event c now l in
    let rest = emitted code calls l' in if ok && c == code then now ∷ rest else rest

-- Each time is the window after the one before it, the first after `t`, or later.
abbrev pub SpacedFrom : ℤ → ℤ → List ℤ → Type 0
SpacedFrom window t [] = Unit
SpacedFrom window t (u ∷ us) = (t +ℤ window ≤ℤ u) × SpacedFrom window u us

abbrev pub Spaced : ℤ → List ℤ → Type 0
Spaced window [] = Unit
Spaced window (t ∷ ts) = SpacedFrom window t ts

-- What a call does to the last time of a code.
allow_event-own :
    (code : ℕ) (now : ℤ) (l : Limiter)
    → (allow_event code now l).0 ≡ true
    → lookup code (allow_event code now l).1.last_emit ≡ some now
unfolding allow_event
allow_event-own code now l h = ground (arith, lookup-insert code code now l.last_emit)

allow_event-denied :
    (code : ℕ) (now : ℤ) (l : Limiter)
    → (allow_event code now l).0 ≡ false
    → (allow_event code now l).1.last_emit ≡ l.last_emit
unfolding allow_event
allow_event-denied code now l h = ground arith

allow_event-other :
    (c code : ℕ) (now : ℤ) (l : Limiter)
    → (c == code) ≡ false
    → lookup code (allow_event c now l).1.last_emit ≡ lookup code l.last_emit
unfolding allow_event
allow_event-other c code now l h = ground (arith, lookup-insert c code now l.last_emit)

allow_event-window : (c : ℕ) (now : ℤ) (l : Limiter) → (allow_event c now l).1.window ≡ l.window
unfolding allow_event
allow_event-window c now l = ground arith

allow_event_late :
    (code : ℕ) (now t : ℤ) (l : Limiter)
    → lookup code l.last_emit ≡ some t
    → (allow_event code now l).0 ≡ true
    → ltb_ℤ (now -ℤ t) l.window ≡ false
unfolding allow_event
allow_event_late code now t l e h = ground arith

spaced_step : (window now t : ℤ) → ltb_ℤ (now -ℤ t) window ≡ false → t +ℤ window ≤ℤ now
spaced_step window now t h = omega (int_laws, ltb_ℤ→le (now -ℤ t) window h)

beq_of : {a b : ℕ} → (a == b) ≡ true → a ≡ b
beq_of {a = a} {b = b} h = (nat_beq_iff a b).0 h

-- After an event at `t` the next ones of its code keep the distance.
emitted-SpacedFrom :
    (code : ℕ) (t : ℤ) (calls : List (ℕ × ℤ)) (l : Limiter)
    → lookup code l.last_emit ≡ some t
    → SpacedFrom l.window t (emitted code calls l)
unfolding emitted
emitted-SpacedFrom code t [] l e = tt
emitted-SpacedFrom code t ((c, now) ∷ calls) l e =
    let l' = (allow_event c now l).1 in
    let kept : (u : ℤ)
        → lookup code l'.last_emit ≡ some u
        → SpacedFrom l.window u (emitted code calls l') =
      λ u h.
        subst (λ w. SpacedFrom w u (emitted code calls l')) (allow_event-window c now l)
          (emitted-SpacedFrom code u calls l' h) in
    elim (Bool-cases (c == code)) [
      | inr other ↦ elim (Bool-cases (allow_event c now l).0) [
        | inl ok ↦ rw (ok, other) (kept t (allow_event-other c code now l other ∙ e))
        | inr deny ↦ rw deny (kept t (allow_event-other c code now l other ∙ e))
      ]
      | inl same ↦
          let own = beq_of same in
          let e' : lookup c l.last_emit ≡ some t =
            subst (λ k. lookup k l.last_emit ≡ some t) (sym own) e in
          elim (Bool-cases (allow_event c now l).0) [
            | inr deny ↦ rw deny (kept t (ap (lookup code) (allow_event-denied c now l deny) ∙ e))
            | inl ok ↦
                rw (ok, same)
                  (
                    spaced_step l.window now t (allow_event_late c now t l e' ok),
                    kept now (
                        subst (λ k. lookup k l'.last_emit ≡ some now) own
                          (allow_event-own c now l ok)),
                  )
          ]
    ]

emitted-Spaced :
    (code : ℕ) (calls : List (ℕ × ℤ)) (l : Limiter) → Spaced l.window (emitted code calls l)
unfolding emitted
emitted-Spaced code [] l = tt
emitted-Spaced code ((c, now) ∷ calls) l =
    let l' = (allow_event c now l).1 in
    let rest : Spaced l.window (emitted code calls l') =
      subst (λ w. Spaced w (emitted code calls l')) (allow_event-window c now l)
        (emitted-Spaced code calls l') in
    let first : (c == code) ≡ true
        → (allow_event c now l).0 ≡ true
        → SpacedFrom l.window now (emitted code calls l') =
      λ same ok.
        subst (λ w. SpacedFrom w now (emitted code calls l')) (allow_event-window c now l)
          (emitted-SpacedFrom code now calls l' (
            subst (λ k. lookup k l'.last_emit ≡ some now) (beq_of same)
              (allow_event-own c now l ok))) in
    elim (Bool-cases (c == code)) [
      | inr other ↦ elim (Bool-cases (allow_event c now l).0) [
        | inl ok ↦ rw (ok, other) rest
        | inr deny ↦ rw deny rest
      ]
      | inl same ↦ elim (Bool-cases (allow_event c now l).0) [
        | inl ok ↦ rw (ok, same) (first same ok)
        | inr deny ↦ rw deny rest
      ]
    ]

new_limiter_window : (window : ℤ) → pos 0 <ℤ window → (new_limiter window).window ≡ window
unfolding new_limiter
new_limiter_window window h = rw (lt→ltb_ℤ (pos 0) window h) refl

-- With a positive window, the events of one code that pass a new limiter, among calls for any codes
-- at any times, are a window or more apart.
pub new_limiter-Spaced :
    (window : ℤ) (code : ℕ) (calls : List (ℕ × ℤ))
    → pos 0 <ℤ window
    → Spaced window (emitted code calls (new_limiter window))
new_limiter-Spaced window code calls h =
    subst (λ w. Spaced w (emitted code calls (new_limiter window))) (new_limiter_window window h)
      (emitted-Spaced code calls (new_limiter window))
