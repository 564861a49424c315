-- ===== src/SafetyGuard/Bucket.antt =====
-- How many setpoints the token bucket of internal/inverter/device/guards.go lets through in a span of
-- time.
use ieee_2030_5_client_go.Shared.{
  ℕ, ◌+◌, ◌≤◌, ◌≡◌, true, false, List, [], ◌∷◌, if◌then◌else◌, arith, sym, subst, ◌∙◌, ℤ, ◌+ℤ◌,
  ◌-ℤ◌, ◌≤ℤ◌, ◌<ℤ◌, ltb_ℤ, lt→ltb_ℤ, int_laws, Bool-cases, inl, inr,
}
use ieee_2030_5_client_go.SafetyGuard.{TokenBucket, refill, take_token, allow}

-- The number of calls of allow, at the listed times, that return true.
unfoldable pub granted : List ℤ → TokenBucket → ℕ
granted [] tb = 0
granted (now ∷ times) tb =
    let (ok, tb') = allow now tb in let rest = granted times tb' in if ok then 1 + rest else rest

-- Every time lies in the window that starts at `t`.
abbrev pub AllWithin : ℤ → ℤ → List ℤ → Type 0
AllWithin window t [] = Unit
AllWithin window t (now ∷ times) = (t ≤ℤ now) × (now <ℤ t +ℤ window) × AllWithin window t times

allow_early :
    (now : ℤ) (tb : TokenBucket)
    → ltb_ℤ (now -ℤ tb.last_fill) tb.window ≡ true
    → ((allow now tb).1.last_fill ≡ tb.last_fill)
      × ((allow now tb).1.window ≡ tb.window)
      × ((allow now tb).1.burst ≡ tb.burst)
      × ((if (allow now tb).0 then 1 else 0) + (allow now tb).1.tokens ≡ tb.tokens)
unfolding allow refill take_token
allow_early now tb h = (ground arith, ground arith, ground arith, ground arith)

allow_late :
    (now : ℤ) (tb : TokenBucket)
    → ltb_ℤ (now -ℤ tb.last_fill) tb.window ≡ false
    → ((allow now tb).1.last_fill ≡ now)
      × ((allow now tb).1.window ≡ tb.window)
      × ((allow now tb).1.burst ≡ tb.burst)
      × ((if (allow now tb).0 then 1 else 0) + (allow now tb).1.tokens ≡ tb.burst)
unfolding allow refill take_token
allow_late now tb h = (ground arith, ground arith, ground arith, ground arith)

granted_step :
    (now : ℤ) (times : List ℤ) (tb : TokenBucket)
    → granted (now ∷ times) tb
      ≡ (if (allow now tb).0 then 1 else 0) + granted times (allow now tb).1
unfolding granted
granted_step now times tb = ground arith

is_early :
    (now t last window : ℤ) → t ≤ℤ last → now <ℤ t +ℤ window → ltb_ℤ (now -ℤ last) window ≡ true
is_early now t last window h k = lt→ltb_ℤ (now -ℤ last) window (omega int_laws)

-- No refill comes in a window that starts at the last one.
granted_after :
    (t window : ℤ) (times : List ℤ) (tb : TokenBucket)
    → tb.window ≡ window
    → t ≤ℤ tb.last_fill
    → AllWithin window t times
    → granted times tb ≤ tb.tokens
unfolding granted
granted_after t window [] tb w l h = omega arith
granted_after t window (now ∷ times) tb w l h =
    let early : ltb_ℤ (now -ℤ tb.last_fill) tb.window ≡ true =
      is_early now t tb.last_fill tb.window l (subst (λ w. now <ℤ t +ℤ w) (sym w) h.1) in
    let (last, window', burst, spent) = allow_early now tb early in
    let rest =
      granted_after t window times (allow now tb).1 (window' ∙ w) (subst (λ x. t ≤ℤ x) (sym last) l)
        h.2 in
    omega (arith, granted_step now times tb, spent, rest)

-- Of the calls of allow at any times in one window, a bucket with no more tokens than its burst grants
-- at most those tokens and one burst: twice the burst, since only one refill can come in between.
pub granted_bound :
    (t window : ℤ) (times : List ℤ) (tb : TokenBucket)
    → tb.window ≡ window
    → tb.tokens ≤ tb.burst
    → AllWithin window t times
    → granted times tb ≤ tb.tokens + tb.burst
unfolding granted
granted_bound t window [] tb w l h = omega arith
granted_bound t window (now ∷ times) tb w l h =
    elim (Bool-cases (ltb_ℤ (now -ℤ tb.last_fill) tb.window)) [
      | inl e ↦
          let (last, window', burst, spent) = allow_early now tb e in
          let rest =
            granted_bound t window times (allow now tb).1 (window' ∙ w)
              (omega (arith, spent, burst, l)) h.2 in
          omega (arith, granted_step now times tb, spent, rest, burst)
      | inr e ↦
          let (last, window', burst, spent) = allow_late now tb e in
          let rest =
            granted_after t window times (allow now tb).1 (window' ∙ w)
              (subst (λ x. t ≤ℤ x) (sym last) h.0) h.2 in
          omega (arith, granted_step now times tb, spent, rest, burst, l)
    ]
