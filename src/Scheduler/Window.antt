-- ===== src/Scheduler/Window.antt =====
-- computeWindow of internal/inverter/scheduler.go: where the drawn fire and expiry instants lie.
use ieee_2030_5_client_go.Shared.{
  ℕ, zero, suc, ◌+◌, ◌-◌, ◌/◌, ◌≡◌, refl, Option, none, some, arith, ℤ, pos, negsuc, ◌+ℤ◌, ◌-ℤ◌,
  ◌≤ℤ◌, ltb_ℤ, ltb_ℤ→lt, ltb_ℤ→le, inl, inr, Bool-cases, if◌then◌else◌, sec, sec_parts, int_laws,
  +ℤ_parts, -ℤ_parts,
}
use ieee_2030_5_client_go.Sep2.{Interval, DerControl}
use ieee_2030_5_client_go.Scheduler.{
  Platform, apply_randomize_start, apply_randomize_duration, shift_duration, compute_window,
}

-- The window of the fire instant: from the start forward, or back from it.
abbrev pub InStartWindow : ℤ → Option ℤ → ℤ → Type 0
InStartWindow start none fire = fire ≡ start
InStartWindow start (some (pos k)) fire = (start ≤ℤ fire) × (fire ≤ℤ start +ℤ sec (pos k))
InStartWindow start (some (negsuc k)) fire = (fire ≤ℤ start) × (start ≤ℤ fire +ℤ sec (pos (suc k)))

-- The width in seconds of the window of the duration.
abbrev pub width : Option ℤ → ℕ
width none = 0
width (some (pos k)) = k
width (some (negsuc k)) = suc k

-- The expiry lies from duration - rd / 2 to duration + (rd - rd / 2) seconds after the fire
-- instant, rd / 2 rounded down, and not before it.
abbrev pub InDurationWindow : ℕ → Option ℤ → ℤ → ℤ → Type 0
InDurationWindow duration rd fire expire =
    (fire ≤ℤ expire)
    × (fire +ℤ sec (pos duration) ≤ℤ expire +ℤ sec (pos (width rd / 2)))
    × (expire ≤ℤ fire +ℤ sec (pos (duration + (width rd - width rd / 2))))

expiry :
    (fire : ℤ) (d w : ℕ) (j : ℤ)
    → (sec (pos d) ≤ℤ j +ℤ sec (pos (w / 2))) × (j ≤ℤ sec (pos d) +ℤ sec (pos (w - w / 2)))
    → let expire = fire +ℤ (if ltb_ℤ j (pos 0) then pos 0 else j) in
      (fire ≤ℤ expire)
      × (fire +ℤ sec (pos d) ≤ℤ expire +ℤ sec (pos (w / 2)))
      × (expire ≤ℤ fire +ℤ sec (pos (d + (w - w / 2))))
expiry fire d w j h = elim (Bool-cases (ltb_ℤ j (pos 0))) [
  | inl neg ↦ rw neg (omega (int_laws, sec_parts, ltb_ℤ→lt j (pos 0) neg))
  | inr nonneg ↦ rw nonneg (omega (int_laws, sec_parts, ltb_ℤ→le j (pos 0) nonneg))
]

module _ (p : Platform) where
  open p use {Rng, int64n, int64n_lt}

  apply_randomize_start-window :
      (start : ℤ) (rs : Option ℤ) (rng : Rng)
      → InStartWindow start rs (apply_randomize_start p start rs rng).0
  unfolding apply_randomize_start
  apply_randomize_start-window start none rng = refl
  apply_randomize_start-window start (some (pos zero)) rng = omega (int_laws, sec_parts (pos 0))
  apply_randomize_start-window start (some (pos (suc k))) rng =
      let n = (int64n rng (suc k + 1)).0 in
      omega (
        int_laws,
        int64n_lt rng (suc k + 1) (omega arith),
        sec_parts (pos n),
        sec_parts (pos (suc k)),
        +ℤ_parts start (sec (pos n)),
      )
  apply_randomize_start-window start (some (negsuc k)) rng =
      let n = (int64n rng (suc k + 1)).0 in
      omega (
        int_laws,
        int64n_lt rng (suc k + 1) (omega arith),
        sec_parts (pos n),
        sec_parts (pos (suc k)),
        -ℤ_parts start (sec (pos n)),
      )

  -- The bounds of the duration before the clamp to zero.
  abbrev Jittered : ℤ → ℕ → ℤ → Type 0
  Jittered d rd j = (d ≤ℤ j +ℤ sec (pos (rd / 2))) × (j ≤ℤ d +ℤ sec (pos (rd - rd / 2)))

  shift_duration-bounds : (d : ℤ) (rd : ℕ) (rng : Rng) → Jittered d rd (shift_duration p d rd rng).0
  unfolding shift_duration
  shift_duration-bounds d rd rng =
      let n = (int64n rng (rd + 1)).0 in
      let shift = pos n -ℤ pos (rd / 2) in
      omega (
        int_laws,
        int64n_lt rng (rd + 1) (omega arith),
        sec_parts shift,
        sec_parts (pos (rd / 2)),
        sec_parts (pos (rd - rd / 2)),
      )

  apply_randomize_duration-bounds :
      (d : ℤ) (rd : Option ℤ) (rng : Rng)
      → Jittered d (width rd) (apply_randomize_duration p d rd rng).0
  unfolding apply_randomize_duration
  apply_randomize_duration-bounds d none rng = omega (int_laws, sec_parts (pos 0))
  apply_randomize_duration-bounds d (some (pos zero)) rng = omega (int_laws, sec_parts (pos 0))
  apply_randomize_duration-bounds d (some (pos (suc k))) rng = shift_duration-bounds d (suc k) rng
  apply_randomize_duration-bounds d (some (negsuc k)) rng = shift_duration-bounds d (suc k) rng

  -- For every draw, the fire instant lies in the start window, and the expiry is not before the fire
  -- instant and lies in the duration window after it.
  pub compute_window_bounds :
      (ev : DerControl) (iv : Interval) (rng : Rng)
      → let (fire, expire, _) = compute_window p ev iv rng in
        InStartWindow (sec iv.start) ev.randomize_start fire
        × InDurationWindow iv.duration ev.randomize_duration fire expire
  unfolding compute_window
  compute_window_bounds ev iv rng =
      let (fire, rng') = apply_randomize_start p (sec iv.start) ev.randomize_start rng in
      let rd = ev.randomize_duration in
      let d = sec (pos iv.duration) in
      let j = (apply_randomize_duration p d rd rng').0 in
      (
        apply_randomize_start-window (sec iv.start) ev.randomize_start rng,
        expiry fire iv.duration (width rd) j (apply_randomize_duration-bounds d rd rng'),
      )
