-- ===== src/SafetyGuard/Clamped.antt =====
-- What ApplySetpoint of internal/inverter/device/guards.go may write to the wrapped device.
use ieee_2030_5_client_go.Shared.{
  ◌≡◌, ◌≢◌, refl, true, false, none, String, ◌⊎◌, inl, inr, arith, ℤ, pos, ◌-ℤ◌, ◌≤ℤ◌, ◌<ℤ◌,
  Bool-cases, ltb_ℤ, ltb_ℤ→lt, ltb_ℤ→le, int_laws,
}
use ieee_2030_5_client_go.Shared.Float.{
  Float, nan, neg_inf, pos_inf, finite, ltf, not_positive, negate, is_nan_or_inf,
}
use ieee_2030_5_client_go.SafetyGuard.{
  InverterState, ControlOutputs, GuardedDevice, allow, clamp, clamp_to_nameplate, reject_malformed,
  validate_units_and_scale, check_staleness, zero_state,
}
use ieee_2030_5_client_go.SafetyGuard.Setpoint.{write_setpoint, apply_setpoint}

-- A finite value from `low` to `high`.
abbrev pub InRange : ℤ → ℤ → Float → Type 0
InRange low high x = (v : ℤ) × (x ≡ finite v) × (low ≤ℤ v) × (v ≤ℤ high)

-- The value from `low` to `high` that is nearest to a finite `x`.
abbrev pub Nearest : ℤ → ℤ → Float → Float → Type 0
Nearest low high x y =
    (v : ℤ) × (x ≡ finite v)
    × InRange low high y
    × (low ≤ℤ v → v ≤ℤ high → y ≡ x)
    × (v <ℤ low → y ≡ finite low)
    × (high <ℤ v → y ≡ finite high)

clamp-InRange :
    (low high v : ℤ) → low ≤ℤ high → InRange low high (clamp (finite low) (finite high) (finite v))
unfolding clamp ltf
clamp-InRange low high v h = elim (Bool-cases (ltb_ℤ high v)) [
  | inl e ↦ elim (Bool-cases (ltb_ℤ high low)) [
    | inl f ↦ rw (e, f) (low, refl, omega arith, h)
    | inr f ↦ rw (e, f) (high, refl, h, omega arith)
  ]
  | inr e ↦ elim (Bool-cases (ltb_ℤ v low)) [
    | inl f ↦ rw (e, f) (low, refl, omega arith, h)
    | inr f ↦ rw (e, f) (v, refl, ltb_ℤ→le v low f, ltb_ℤ→le high v e)
  ]
]

clamp-Nearest :
    (low high v : ℤ)
    → low ≤ℤ high
    → Nearest low high (finite v) (clamp (finite low) (finite high) (finite v))
unfolding clamp ltf
clamp-Nearest low high v h =
    let within = clamp-InRange low high v h in
    (
      v,
      refl,
      within,
      λ least most. ground (arith, ltb_ℤ→lt high v, ltb_ℤ→lt v low, least, most),
      λ less. ground (arith, h, less),
      λ more. ground (arith, h, more),
    )

-- The five guards let the setpoint through, with the limiter as it is afterwards.
abbrev pub Passes : ℤ → ℤ → ControlOutputs → GuardedDevice → Type 0
Passes now later c g =
    (reject_malformed c ≡ false)
    × (validate_units_and_scale g c ≡ false)
    × (check_staleness now g ≡ false)
    × ((allow later g.limiter).0 ≡ true)

is_finite : (x : Float) → is_nan_or_inf x ≡ false → (v : ℤ) × (x ≡ finite v)
unfolding is_nan_or_inf
is_finite nan h = cc
is_finite neg_inf h = cc
is_finite pos_inf h = cc
is_finite (finite v) h = (v, refl)

abbrev with_w : ControlOutputs → Float → Float → ControlOutputs
with_w c w q = record c { active_power_w = w; reactive_power_var = q }

-- The product of two positive ratings with the multiplier is positive only for positive ratings.
rated :
    (scale : Float → Float) (r : ℤ)
    → ((x : Float) → not_positive x ≡ true → not_positive (scale x) ≡ true)
    → not_positive (scale (finite r)) ≡ false
    → pos 0 <ℤ r
unfolding not_positive
rated scale r law h = elim (Bool-cases (ltb_ℤ (pos 0) r)) [
  | inl e ↦ ltb_ℤ→lt (pos 0) r e
  | inr e ↦ ground (arith, law (finite r))
]

module _ {D : Type 0} (write : ControlOutputs → D → (InverterState ⊎ String) × D) where
  -- Either the device is as it was and an error is returned, or the guards pass and the clamped
  -- setpoint is written.
  pub apply_setpoint-cases :
      (now later : ℤ) (c : ControlOutputs) (g : GuardedDevice) (d : D)
      → (((apply_setpoint write now later c g d).2 ≡ d)
          × ((apply_setpoint write now later c g d).0.err ≢ none)
          × ((apply_setpoint write now later c g d).0.state ≡ zero_state))
        ⊎ (Passes now later c g
            × (apply_setpoint write now later c g d
                ≡ write_setpoint write
                    (clamp_to_nameplate c g.nameplate)
                    (record g { limiter = (allow later g.limiter).1 })
                    d))
  unfolding apply_setpoint
  apply_setpoint-cases now later c g d = elim (Bool-cases (reject_malformed c)) [
    | inl e₁ ↦ rw (e₁, apply_setpoint) (inl (refl, λ h. cc, refl))
    | inr e₁ ↦ elim (Bool-cases (validate_units_and_scale g c)) [
      | inl e₂ ↦ rw (e₁, e₂, apply_setpoint) (inl (refl, λ h. cc, refl))
      | inr e₂ ↦ elim (Bool-cases (check_staleness now g)) [
        | inl e₃ ↦ rw (e₁, e₂, e₃, apply_setpoint) (inl (refl, λ h. cc, refl))
        | inr e₃ ↦ elim (Bool-cases (allow later g.limiter).0) [
          | inl e₄ ↦ rw (e₁, e₂, e₃, e₄, apply_setpoint) (inr ((refl, refl, refl, refl), refl))
          | inr e₄ ↦ rw (e₁, e₂, e₃, e₄, apply_setpoint) (inl (refl, λ h. cc, refl))
        ]
      ]
    ]
  ]

-- The setpoint that is written: the one in the ratings' range that is nearest to the one asked for,
-- and all else as it was asked for.
abbrev pub Clamped : ControlOutputs → ℤ → ℤ → ControlOutputs → Type 0
Clamped c r q c' =
    Nearest (pos 0) r c.active_power_w c'.active_power_w
    × Nearest (pos 0 -ℤ q) q c.reactive_power_var c'.reactive_power_var
    × (c'.connected ≡ c.connected)
    × (c'.energized ≡ c.energized)
    × (c'.mode ≡ c.mode)
    × (c'.refused ≡ c.refused)

clamp_to_nameplate-Clamped :
    (scale : Float → Float) (c : ControlOutputs) (g : GuardedDevice) (r q : ℤ)
    → ((x : Float) → not_positive x ≡ true → not_positive (scale x) ≡ true)
    → g.nameplate ≡ record { rated_w = finite r; rated_var = finite q }
    → g.scale_max_w ≡ scale (finite r)
    → g.scale_max_var ≡ scale (finite q)
    → reject_malformed c ≡ false
    → validate_units_and_scale g c ≡ false
    → Clamped c r q (clamp_to_nameplate c g.nameplate)
unfolding clamp_to_nameplate reject_malformed validate_units_and_scale negate
clamp_to_nameplate-Clamped scale c g r q law np sw sv mal val =
    let pr : pos 0 <ℤ r = rated scale r law (ground (arith, sw)) in
    let pq : pos 0 <ℤ q = rated scale q law (ground (arith, sv)) in
    let (w, ew) = is_finite c.active_power_w (ground arith) in
    let (v, ev) = is_finite c.reactive_power_var (ground arith) in
    rw (np, ew, ev)
      (
        clamp-Nearest (pos 0) r w (omega arith),
        clamp-Nearest (pos 0 -ℤ q) q v (omega int_laws),
        refl,
        refl,
        refl,
        refl,
      )

-- With finite ratings, and their product with the multiplier positive only where they are, a call of
-- ApplySetpoint either leaves the device as it was, with an error and the zero state, or passes all
-- five guards and ends as the write, with its fail-safe, of the setpoint in the ratings' range that is
-- nearest to the one asked for, which itself is written where it lies in that range; all else of the
-- controls is written as it was asked for.
pub apply_setpoint_clamps :
    {D : Type 0} (write : ControlOutputs → D → (InverterState ⊎ String) × D) (scale : Float → Float)
    → ((x : Float) → not_positive x ≡ true → not_positive (scale x) ≡ true)
    → (now later : ℤ) (c : ControlOutputs) (g : GuardedDevice) (d : D) (r q : ℤ)
    → g.nameplate ≡ record { rated_w = finite r; rated_var = finite q }
    → g.scale_max_w ≡ scale (finite r)
    → g.scale_max_var ≡ scale (finite q)
    → (((apply_setpoint write now later c g d).2 ≡ d)
        × ((apply_setpoint write now later c g d).0.err ≢ none)
        × ((apply_setpoint write now later c g d).0.state ≡ zero_state))
      ⊎ (Passes now later c g
          × ((c' : ControlOutputs) × Clamped c r q c'
              × (apply_setpoint write now later c g d
                  ≡ write_setpoint write c' (record g { limiter = (allow later g.limiter).1 }) d)))
apply_setpoint_clamps write scale law now later c g d r q np sw sv =
    elim (apply_setpoint-cases write now later c g d) [
      | inl untouched ↦ inl untouched
      | inr (passes, e) ↦
          let clamped = clamp_to_nameplate-Clamped scale c g r q law np sw sv passes.0 passes.1 in
          inr (passes, (clamp_to_nameplate c g.nameplate, clamped, e))
    ]
