-- ===== src/RideThrough/Tripped.antt =====
-- internal/inverter/ridethrough.go: how a device trips, and how it comes back.
use ieee_2030_5_client_go.Shared.{
  ◌≡◌, refl, Bool, true, false, not, ◌||◌, List, [], ◌∷◌, ℤ, arith, inl, inr, Bool-cases, ltb_ℤ,
  ◌&&◌,
}
use ieee_2030_5_client_go.RideThrough.{
  GridState, RideThroughState, rt_normal, rt_riding_through, rt_tripped, rt_wait_reconnect,
  is_normal, check_enter_service, evaluate_ride_through, reconnect_delay,
}

-- A grid and how long it has been abnormal.
abbrev pub Sample : Type 0
Sample = GridState × ℤ

unfoldable pub evaluate_all : List Sample → RideThroughState → RideThroughState
evaluate_all [] s = s
evaluate_all ((g, d) ∷ xs) s = evaluate_all xs (evaluate_ride_through g d s).state

-- A sample lets a tripped device wait to reconnect, and one lets a waiting device enter service.
abbrev pub releases : Sample → Bool
releases (g, d) = is_normal g && not (ltb_ℤ d reconnect_delay)

-- Some sample releases the device, and some later one lets it enter service.
abbrev pub admits_any : List Sample → Bool
admits_any [] = false
admits_any ((g, d) ∷ xs) = check_enter_service g || admits_any xs

abbrev pub releases_then_admits : List Sample → Bool
releases_then_admits [] = false
releases_then_admits (x ∷ xs) = (releases x && admits_any xs) || releases_then_admits xs

abbrev pub is_out : RideThroughState → Bool
is_out rt_tripped = true
is_out rt_wait_reconnect = true
is_out rt_normal = false
is_out rt_riding_through = false

evaluate_all-waiting :
    (xs : List Sample) → admits_any xs ≡ false → is_out (evaluate_all xs rt_wait_reconnect) ≡ true
unfolding evaluate_all evaluate_ride_through
evaluate_all-waiting [] h = refl
evaluate_all-waiting ((g, d) ∷ xs) h = elim (Bool-cases (check_enter_service g)) [
  | inl e ↦ absurd (ground arith)
  | inr e ↦ rw e (evaluate_all-waiting xs (ground arith))
]

-- A tripped device stays out of service until a sample of a normal grid, at the delay for the
-- reconnection or later, and after that a sample that permits to enter service.
pub evaluate_all-tripped :
    (xs : List Sample)
    → releases_then_admits xs ≡ false
    → is_out (evaluate_all xs rt_tripped) ≡ true
unfolding evaluate_all evaluate_ride_through
evaluate_all-tripped [] h = refl
evaluate_all-tripped ((g, d) ∷ xs) h = elim (Bool-cases (releases (g, d))) [
  | inl e ↦ rw e (evaluate_all-waiting xs (ground arith))
  | inr e ↦ rw e (evaluate_all-tripped xs (ground arith))
]
