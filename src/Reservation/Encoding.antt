-- ===== src/Reservation/Encoding.antt =====
-- signedEnergy and activePower of cmd/inverterclient/reservation_logic.go: a power as a 16-bit value
-- and a power of ten. The sign takes no part in the loop, so it runs on the magnitude.
use ieee_2030_5_client_go.Shared.{
  ℕ, zero, suc, ◌/◌, ◌%◌, ◌^◌, Option, none, some, ◌==◌, leb, if◌then◌else◌, ℤ, pos, negsuc,
}
use ieee_2030_5_client_go.Shared.Float.{Float, round_f}
use ieee_2030_5_client_go.Reservation.{Quantity}

abbrev pub max_int16 : ℕ
max_int16 = 32767

abbrev pub max_int48 : ℕ
max_int48 = 140737488355327

abbrev pub magnitude : ℤ → ℕ
magnitude (pos n) = n
magnitude (negsuc n) = suc n

-- A magnitude under the sign of a number.
abbrev pub signed_as : ℤ → ℕ → ℤ
signed_as (pos _) m = pos m
signed_as (negsuc _) zero = pos zero
signed_as (negsuc _) (suc m) = negsuc m

-- The loop of activePower: the count of divisions by ten and the value left; none is its error. The
-- fuel bounds the divisions.
unfoldable pub scale_down : ℕ → ℕ → ℕ → Option (ℕ × ℕ)
scale_down zero n mult = if leb n max_int16 then some (mult, n) else none
scale_down (suc fuel) n mult =
    let rest = scale_down fuel (n / 10) (suc mult) in
    if leb n max_int16 then some (mult, n) else if n % 10 == 0 then rest else none

abbrev pub packed : ℤ → Option (ℕ × ℕ) → Option Quantity
packed n none = none
packed n (some (mult, m)) = some (record { multiplier = pos mult; value = signed_as n m })

-- activePower on a whole number. The magnitude is 10 ^ 12 at most, so twelve divisions are enough.
unfoldable pub power_of : ℤ → Option Quantity
power_of n = if leb (magnitude n) (10 ^ 12) then packed n (scale_down 12 (magnitude n) 0) else none

-- activePower; none is an error.
unfoldable pub active_power : Float → Option Quantity
unfolding power_of
active_power w = elim (round_f w) [ none ↦ none | some n ↦ power_of n ]

-- signedEnergy; none is its error.
unfoldable pub signed_energy : Float → Option Quantity
signed_energy w = elim (round_f w) [
  | none ↦ none
  | some n ↦
      if leb (magnitude n) max_int48 then some (record { multiplier = pos 0; value = n }) else none
]
