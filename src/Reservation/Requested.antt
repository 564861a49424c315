-- ===== src/Reservation/Requested.antt =====
-- What a request that cmd/inverterclient/reservation_logic.go builds asks for.
use ieee_2030_5_client_go.Shared.{
  ap, ◌/◌, ◌^◌, ◌≡◌, refl, false, none, some, String, arith, ℤ, pos, negsuc, ◌+ℤ◌, ◌≤ℤ◌, ◌<ℤ◌, sec,
  sec_parts, int_laws, Option-cases, inl, inr,
}
use ieee_2030_5_client_go.Shared.Float.{Float, is_zero_f, not_positive, round_f}
use ieee_2030_5_client_go.Reservation.{Quantity, FlowRequest, Settings}
use ieee_2030_5_client_go.Reservation.Encoding.{signed_energy, active_power}
use ieee_2030_5_client_go.Reservation.Encoded.{decode, active_power-decode, Fits}
use ieee_2030_5_client_go.Reservation.Request.{
  built, unix, check_settings, toward, request_of, build_flow_request, facts_of, max_uint32,
  magnitude_of,
}

unix_parts : (t : ℤ) → (sec (unix t) ≤ℤ t) × (t <ℤ sec (unix t) +ℤ pos (10 ^ 9))
unfolding unix
unix_parts (pos n) =
    (omega (int_laws, sec_parts (pos (n / 10 ^ 9))), omega (int_laws, sec_parts (pos (n / 10 ^ 9))))
unix_parts (negsuc n) = (
  omega (int_laws, sec_parts (negsuc (n / 10 ^ 9))),
  omega (int_laws, sec_parts (negsuc (n / 10 ^ 9))),
)

-- The limits that the settings of a request keep.
pub record IsSound (s : Settings) : Type 0 where
  pub energy : is_zero_f s.energy_wh ≡ false
  pub power : not_positive s.power_w ≡ false
  pub duration : (pos 0 <ℤ s.duration_s) × (s.duration_s ≤ℤ max_uint32)
  pub grace : (pos 0 <ℤ s.grace_s) × (s.grace_s <ℤ s.duration_s)
  pub lead : s.min_lead_s <ℤ s.start_in_s

check_settings-IsSound : (s : Settings) → check_settings s ≡ none → IsSound s
unfolding check_settings
check_settings-IsSound s h = ground arith

-- A second more than the lead, less what is cut off to whole seconds, is still more than the lead.
later : (now start lead : ℤ) → lead <ℤ start → now +ℤ sec lead <ℤ sec (unix (now +ℤ sec start))
later now start lead h =
    omega (int_laws, unix_parts (now +ℤ sec start), sec_parts start, sec_parts lead)

whole : (d : ℤ) → pos 0 <ℤ d → pos (magnitude_of d) ≡ d
whole (pos n) h = refl
whole (negsuc n) h = absurd (omega arith)

signed_energy-value :
    (w : Float) (q : Quantity)
    → signed_energy w ≡ some q
    → (round_f w ≡ some q.value) × (q.multiplier ≡ pos 0)
unfolding signed_energy
signed_energy-value w q h = ground arith

build_parts :
    (s : Settings) (now : ℤ) (mrid : String) (req : FlowRequest)
    → build_flow_request s now mrid ≡ built req
    → (energy : Quantity) × (power : Quantity) × (check_settings s ≡ none)
      × (signed_energy s.energy_wh ≡ some energy)
      × (active_power (toward s.energy_wh s.power_w) ≡ some power)
      × (req ≡ request_of s now mrid energy power)
unfolding build_flow_request
build_parts s now mrid req h = elim (Option-cases (check_settings s)) [
  | inr (x, e) ↦ ground (arith, e)
  | inl e ↦ elim (Option-cases (signed_energy s.energy_wh)) [
    | inl f ↦ ground (arith, e, f)
    | inr (energy, f) ↦ elim (Option-cases (active_power (toward s.energy_wh s.power_w))) [
      | inl g ↦ ground (arith, e, f, g)
      | inr (power, g) ↦ (energy, power, e, f, g, ground (arith, e, f, g))
    ]
  ]
]

-- A request that is built has sound settings; read back, its window starts later than the lead from
-- now and lasts as long as was asked; its energy, in watt-hours without a multiplier, and its power
-- stand for what was asked, rounded to whole units, the power with the energy's sign.
pub build_flow_request_lem :
    (scaled : ℤ → ℤ → Float) (s : Settings) (now : ℤ) (mrid : String) (req : FlowRequest)
    → build_flow_request s now mrid ≡ built req
    → let facts = facts_of scaled req in
      IsSound s
      × (now +ℤ sec s.min_lead_s <ℤ facts.from)
      × (facts.until ≡ facts.from +ℤ sec s.duration_s)
      × (round_f s.energy_wh ≡ some req.energy.value)
      × (req.energy.multiplier ≡ pos 0)
      × (round_f (toward s.energy_wh s.power_w) ≡ some (decode req.power))
      × Fits req.power
unfolding facts_of request_of
build_flow_request_lem scaled s now mrid req h =
    let (energy, power, sound, e, p, same) = build_parts s now mrid req h in
    let v = check_settings-IsSound s sound in
    let (exact, fits) = active_power-decode (toward s.energy_wh s.power_w) power p in
    rw same (
      v,
      later now s.start_in_s s.min_lead_s v.lead,
      ap (λ d. sec (unix (now +ℤ sec s.start_in_s)) +ℤ sec d) (whole s.duration_s v.duration.0),
      (signed_energy-value s.energy_wh energy e).0,
      (signed_energy-value s.energy_wh energy e).1,
      exact,
      fits,
    )
