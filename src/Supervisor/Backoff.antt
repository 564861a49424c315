-- ===== src/Supervisor/Backoff.antt =====
-- The waits before the restarts of internal/sim/gridlabd/supervisor.go.
use ieee_2030_5_client_go.Shared.{
  ℕ, zero, suc, ◌≡◌, refl, ℤ, pos, ◌+ℤ◌, ◌≤ℤ◌, ◌<ℤ◌, ltb_ℤ, ltb_ℤ→lt, int_laws, Bool-cases, inl,
  inr, if◌then◌else◌,
}
use ieee_2030_5_client_go.Supervisor.{backoff_delay}

abbrev pub capped : ℤ → ℤ → ℤ
capped d limit = if ltb_ℤ d limit then d else limit

limit_capped : (limit : ℤ) → pos 0 <ℤ limit → limit ≡ capped (limit +ℤ limit) limit
limit_capped limit h = elim (Bool-cases (ltb_ℤ (limit +ℤ limit) limit)) [
  | inr e ↦ rw e refl
  | inl e ↦ let less = ltb_ℤ→lt (limit +ℤ limit) limit e in absurd (omega (int_laws, h, less))
]

-- Where the limit is positive, each delay is twice the one before, up to the limit.
backoff_delay-suc :
    (n : ℕ) (d limit : ℤ)
    → pos 0 <ℤ limit
    → backoff_delay (suc n) d limit
      ≡ capped (backoff_delay n d limit +ℤ backoff_delay n d limit) limit
unfolding backoff_delay
backoff_delay-suc zero d limit h = refl
backoff_delay-suc (suc n) d limit h = elim (Bool-cases (ltb_ℤ (d +ℤ d) limit)) [
  | inl e ↦ rw e (backoff_delay-suc n (d +ℤ d) limit h)
  | inr e ↦ rw e (limit_capped limit h)
]

-- Where the first delay is positive and not above the limit, no delay is below the first or above the
-- limit.
backoff_delay-bounds :
    (n : ℕ) (d limit : ℤ)
    → pos 0 <ℤ d
    → d ≤ℤ limit
    → (d ≤ℤ backoff_delay n d limit) × (backoff_delay n d limit ≤ℤ limit)
unfolding backoff_delay
backoff_delay-bounds zero d limit h k = (omega int_laws, k)
backoff_delay-bounds (suc n) d limit h k = elim (Bool-cases (ltb_ℤ (d +ℤ d) limit)) [
  | inr e ↦ rw e (k, omega int_laws)
  | inl e ↦
      let less = ltb_ℤ→lt (d +ℤ d) limit e in
      let (low, high) =
        backoff_delay-bounds n (d +ℤ d) limit (omega (int_laws, h)) (omega (int_laws, less)) in
      rw e (omega (int_laws, h, low), high)
]
