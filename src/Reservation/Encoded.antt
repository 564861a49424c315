-- ===== src/Reservation/Encoded.antt =====
-- What the powers encoded by cmd/inverterclient/reservation_logic.go stand for.
use ieee_2030_5_client_go.Shared.{
  ◌↔◌, subst, ◌≤ℤ◌, ℕ, zero, suc, ◌+◌, ◌*◌, ◌/◌, ◌%◌, ◌^◌, ◌≤◌, ◌≡◌, refl, sym, ap, ◌∙◌, true,
  Option, none, some, ◌==◌, leb, is_some, arith, ℤ, pos, negsuc, Bool-cases, inl, inr, Option-cases,
}
use ieee_2030_5_client_go.Shared.Float.{Float, round_f}
use ieee_2030_5_client_go.Reservation.{Quantity}
use ieee_2030_5_client_go.Reservation.Encoding.{
  max_int16, magnitude, signed_as, scale_down, packed, power_of, active_power,
}

abbrev pub pow10 : ℕ → ℕ
pow10 zero = 1
pow10 (suc k) = 10 * pow10 k

ten_times : (a p : ℕ) → a * (10 * p) ≡ 10 * (a * p)
ten_times a p = grind arith

ten_first : (a p : ℕ) → 10 * a * p ≡ 10 * (a * p)
ten_first a p = grind arith

tenth : (a : ℕ) → (10 * a / 10 ≡ a) × (10 * a % 10 ≡ 0)
tenth a = omega arith

whole_tenth : (n : ℕ) → n % 10 ≡ 0 → n ≡ 10 * (n / 10)
whole_tenth n h = omega arith

shifted : (n p x : ℕ) → n % 10 ≡ 0 → x ≡ n / 10 * (10 * p) → x ≡ n * p
shifted n p x h e =
    e ∙ ten_times (n / 10) p ∙ sym (ap (λ (k : ℕ). k * p) (whole_tenth n h) ∙ ten_first (n / 10) p)

-- What the loop returns is its number, exactly, and fits 16 bits.
scale_down-exact :
    (fuel n mult k m : ℕ)
    → scale_down fuel n mult ≡ some (k, m)
    → (m * pow10 k ≡ n * pow10 mult) × (m ≤ max_int16) × (k ≤ mult + fuel)
unfolding scale_down
scale_down-exact zero n mult k m h = ground arith
scale_down-exact (suc fuel) n mult k m h = elim (Bool-cases (leb n max_int16)) [
  | inl fits ↦ ground arith
  | inr more ↦ elim (Bool-cases (n % 10 == 0)) [
    | inr rest ↦ ground arith
    | inl even ↦
        let (e, small, few) = scale_down-exact fuel (n / 10) (suc mult) k m (ground arith) in
        (shifted n (pow10 mult) (m * pow10 k) (ground arith) e, small, omega (arith, few))
  ]
]

-- A number with a representation of few enough zeros is not refused.
scale_down_total :
    (fuel v j mult : ℕ)
    → v ≤ max_int16
    → j ≤ fuel
    → is_some (scale_down fuel (v * pow10 j) mult) ≡ true
unfolding scale_down
scale_down_total zero v zero mult h l = ground arith
scale_down_total zero v (suc j) mult h l = ground arith
scale_down_total (suc fuel) v zero mult h l = ground arith
scale_down_total (suc fuel) v (suc j) mult h l =
    let (tenth_is, even) = tenth (v * pow10 j) in
    rw (ten_times v (pow10 j))
      (rw (tenth_is, even) (ground (arith, scale_down_total fuel v j (suc mult) h)))

pow10_pos : (k : ℕ) → 1 ≤ pow10 k
pow10_pos zero = omega arith
pow10_pos (suc k) = omega (arith, pow10_pos k)

pow10_mono : (a b : ℕ) → a ≤ b → pow10 a ≤ pow10 b
pow10_mono zero b h = pow10_pos b
pow10_mono (suc a) zero h = absurd (omega arith)
pow10_mono (suc a) (suc b) h = omega (arith, pow10_mono a b (omega arith))

le_times : (v p : ℕ) → 1 ≤ v → p ≤ v * p
le_times v p h = grind arith

few_zeros : (v j : ℕ) → 1 ≤ v → v * pow10 j ≤ 10 ^ 12 → j ≤ 12
few_zeros v j h l = elim (Bool-cases (leb j 12)) [
  | inl e ↦ ground arith
  | inr e ↦
      let large : 10 ^ 13 ≤ pow10 j = pow10_mono 13 j (ground arith) in
      absurd (omega (arith, le_times v (pow10 j) h, large))
]

-- The number that an encoded power or energy stands for, where its multiplier is not negative.
abbrev pub decode : Quantity → ℤ
decode q = signed_as q.value (magnitude q.value * pow10 (magnitude q.multiplier))

signed_as-magnitude : (n : ℤ) → signed_as n (magnitude n) ≡ n
signed_as-magnitude (pos n) = refl
signed_as-magnitude (negsuc n) = refl

zero_times : (p : ℕ) → 0 * p ≡ 0
zero_times p = grind arith

signed_as_times :
    (n : ℤ) (m p : ℕ)
    → 1 ≤ p
    → signed_as (signed_as n m) (magnitude (signed_as n m) * p) ≡ signed_as n (m * p)
signed_as_times (pos n) m p h = refl
signed_as_times (negsuc n) zero p h = rw (zero_times p) refl
signed_as_times (negsuc n) (suc m) p h = refl

signed_as_fits : (n : ℤ) (m : ℕ) → magnitude (signed_as n m) ≡ m
signed_as_fits (pos n) m = refl
signed_as_fits (negsuc n) zero = refl
signed_as_fits (negsuc n) (suc m) = refl

decode_scaled :
    (n : ℤ) (k m : ℕ)
    → m * pow10 k ≡ magnitude n
    → decode (record { multiplier = pos k; value = signed_as n m }) ≡ n
decode_scaled n k m e =
    signed_as_times n m (pow10 k) (pow10_pos k) ∙ ap (signed_as n) e ∙ signed_as-magnitude n

times_one : (n : ℕ) → n * 1 ≡ n
times_one n = omega arith

-- The value fits 16 bits and the multiplier is at most twelve.
abbrev pub Fits : Quantity → Type 0
Fits q = (magnitude q.value ≤ max_int16) × (pos 0 ≤ℤ q.multiplier) × (q.multiplier ≤ℤ pos 12)

packed-decode :
    (n : ℤ) (r : Option (ℕ × ℕ)) (q : Quantity)
    → scale_down 12 (magnitude n) 0 ≡ r
    → packed n r ≡ some q
    → (decode q ≡ n) × Fits q
packed-decode n none q e h = cc
packed-decode n (some (k, m)) q e h =
    let (exact, small, few) = scale_down-exact 12 (magnitude n) 0 k m e in
    let same : record { multiplier = pos k; value = signed_as n m } ≡ q = cc in
    subst (λ (p : Quantity). (decode p ≡ n) × Fits p) same
      (
        decode_scaled n k m (exact ∙ times_one (magnitude n)),
        (omega (arith, small, signed_as_fits n m), omega arith, omega (arith, few)),
      )

power_of-decode : (n : ℤ) (q : Quantity) → power_of n ≡ some q → (decode q ≡ n) × Fits q
unfolding power_of
power_of-decode n q h = packed-decode n (scale_down 12 (magnitude n) 0) q refl (ground arith)

packed_some : (n : ℤ) (r : Option (ℕ × ℕ)) → is_some r ≡ true → is_some (packed n r) ≡ true
packed_some n none h = cc
packed_some n (some (k, m)) h = refl

-- Twelve zeros at most are needed.
zeros :
    (n : ℤ) (v j : ℕ)
    → magnitude n ≤ 10 ^ 12
    → v ≤ max_int16
    → magnitude n ≡ v * pow10 j
    → (i : ℕ) × (i ≤ 12) × (magnitude n ≡ v * pow10 i)
zeros n zero j l h e = (0, omega arith, e ∙ zero_times (pow10 j))
zeros n (suc v) j l h e = (j, few_zeros (suc v) j (omega arith) (omega (arith, l, e)), e)

power_of_total :
    (n : ℤ) (v j : ℕ)
    → magnitude n ≤ 10 ^ 12
    → v ≤ max_int16
    → magnitude n ≡ v * pow10 j
    → is_some (power_of n) ≡ true
unfolding power_of
power_of_total n v j l h e =
    let (i, few, again) = zeros n v j l h e in
    let found =
      packed_some n (scale_down 12 (magnitude n) 0) (rw again (scale_down_total 12 v i 0 h few)) in
    ground (arith, found)

-- A whole number that a 16-bit value times a power of ten gives.
abbrev pub IsEncodable : ℤ → Type 0
IsEncodable n =
    (magnitude n ≤ 10 ^ 12) × ((v : ℕ) × (j : ℕ) × (v ≤ max_int16) × (magnitude n ≡ v * pow10 j))

packed-IsEncodable :
    (n : ℤ) (r : Option (ℕ × ℕ)) (q : Quantity)
    → scale_down 12 (magnitude n) 0 ≡ r
    → packed n r ≡ some q
    → (v : ℕ) × (j : ℕ) × (v ≤ max_int16) × (magnitude n ≡ v * pow10 j)
packed-IsEncodable n none q e h = cc
packed-IsEncodable n (some (k, m)) q e h =
    let (exact, small, few) = scale_down-exact 12 (magnitude n) 0 k m e in
    (m, k, small, sym (exact ∙ times_one (magnitude n)))

power_of-IsEncodable : (n : ℤ) (q : Quantity) → power_of n ≡ some q → IsEncodable n
unfolding power_of
power_of-IsEncodable n q h = elim (Bool-cases (leb (magnitude n) (10 ^ 12))) [
  | inr e ↦ ground arith
  | inl e ↦ (ground arith, packed-IsEncodable n _ q refl (ground arith))
]

-- activePower refuses exactly NaN, an infinity, and a power whose magnitude, rounded to a whole watt,
-- is above 10 ^ 12 or is no value up to 32767 times a power of ten.
pub active_power_iff :
    (w : Float)
    → (is_some (active_power w) ≡ true) ↔ ((n : ℤ) × (round_f w ≡ some n) × IsEncodable n)
unfolding active_power
active_power_iff w = (
  λ h. elim (Option-cases (round_f w)) [
    | inl e ↦ ground (arith, e)
    | inr (n, e) ↦ elim (Option-cases (power_of n)) [
      | inl f ↦ ground (arith, e, f)
      | inr (q, f) ↦ (n, e, power_of-IsEncodable n q f)
    ]
  ],
  λ (n, e, (l, (v, j, h, f))). rw (e, active_power) (power_of_total n v j l h f),
)

-- What activePower returns stands for exactly the power it was given, rounded to a whole watt, in a
-- value of 16 bits.
pub active_power-decode :
    (w : Float) (q : Quantity) → active_power w ≡ some q → (round_f w ≡ some (decode q)) × Fits q
unfolding active_power
active_power-decode w q h = elim (Option-cases (round_f w)) [
  | inl e ↦ ground (arith, e)
  | inr (n, e) ↦
      let (exact, fits) = power_of-decode n q (ground (arith, e)) in (e ∙ ap some (sym exact), fits)
]
