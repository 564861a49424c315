-- ===== src/Responses/Hooked.antt =====
-- Which transitions cmd/inverterclient/response_hook.go answers, over the arrows of the diagram at the
-- head of internal/inverter/statemachine.go and the rejections.
use ieee_2030_5_client_go.Shared.{
  ℕ, ◌≡◌, ◌≢◌, refl, ◌%◌, ◌⊎◌, inl, inr, ◌↔◌, Bool, true, false, some, String, eq_iff, is_some,
  Option-cases, arith, ℤ,
}
use ieee_2030_5_client_go.Sep2.{DerControl}
use ieee_2030_5_client_go.StateMachine.{
  EventState, is_default, default, event_received, event_started, event_completed, event_cancelled,
  event_rejected,
}
use ieee_2030_5_client_go.StateMachine.Lifecycle.{diagram}
use ieee_2030_5_client_go.Responses.{
  Texts, map_transition_to_status, response_required_on, response_of, bit_0, bit_1,
}

-- Table 27: the bit that asks for a Response of a transition to a state.
abbrev pub asks : EventState → ℕ → Bool
asks event_received mask = bit_0 mask
asks _ mask = bit_1 mask

abbrev pub is_rejection : EventState → Bool
is_rejection event_rejected = true
is_rejection _ = false

-- The event is answered: it names a place to reply to, the transition does not return to DEFAULT, and
-- the mask asks for it.
abbrev pub Answered : EventState → DerControl → Type 0
Answered next evt =
    (evt.reply_to ≢ "")
    × (is_default next ≡ false)
    × ((mask : ℕ) × (evt.response_required ≡ some mask) × (asks next (mask % 256) ≡ true))

status_asks :
    (prev next : EventState) (mask : ℕ)
    → (diagram prev next ≡ true) ⊎ (is_rejection next ≡ true)
    → is_default next ≡ false
    → (map_transition_to_status prev next ≢ 0)
      × (response_required_on mask (map_transition_to_status prev next) ≡ asks next mask)
unfolding map_transition_to_status response_required_on
status_asks prev default mask arrow d = cc
status_asks prev event_received mask arrow d = (ground arith, refl)
status_asks event_received event_started mask arrow d = (ground arith, refl)
status_asks default event_started mask arrow d = ground arith
status_asks event_started event_started mask arrow d = ground arith
status_asks event_completed event_started mask arrow d = ground arith
status_asks event_cancelled event_started mask arrow d = ground arith
status_asks event_rejected event_started mask arrow d = ground arith
status_asks event_started event_completed mask arrow d = (ground arith, refl)
status_asks default event_completed mask arrow d = ground arith
status_asks event_received event_completed mask arrow d = ground arith
status_asks event_completed event_completed mask arrow d = ground arith
status_asks event_cancelled event_completed mask arrow d = ground arith
status_asks event_rejected event_completed mask arrow d = ground arith
status_asks prev event_cancelled mask arrow d = (ground arith, refl)
status_asks prev event_rejected mask arrow d = (ground arith, refl)

default_status :
    (prev next : EventState) → is_default next ≡ true → map_transition_to_status prev next ≡ 0
unfolding map_transition_to_status
default_status prev default h = refl
default_status prev event_received h = cc
default_status prev event_started h = cc
default_status prev event_completed h = cc
default_status prev event_cancelled h = cc
default_status prev event_rejected h = cc

posts :
    (t : Texts) (lfdi : String) (now : ℤ) (prev next : EventState) (evt : DerControl)
    → (diagram prev next ≡ true) ⊎ (is_rejection next ≡ true)
    → is_some (response_of t lfdi now map_transition_to_status prev next (some evt)) ≡ true
    → Answered next evt
unfolding response_of
posts t lfdi now prev next evt arrow h = elim (Option-cases evt.response_required) [
  | inl e ↦ ground (arith, e)
  | inr (mask, e) ↦ (
    ground (arith, e, eq_iff evt.reply_to ""),
    ground (arith, e, default_status prev next),
    (
      mask,
      e,
      ground (arith, e, default_status prev next, status_asks prev next (mask % 256) arrow),
    ),
  )
]

posts_of :
    (t : Texts) (lfdi : String) (now : ℤ) (prev next : EventState) (evt : DerControl)
    → (diagram prev next ≡ true) ⊎ (is_rejection next ≡ true)
    → Answered next evt
    → is_some (response_of t lfdi now map_transition_to_status prev next (some evt)) ≡ true
unfolding response_of
posts_of t lfdi now prev next evt arrow (named, next_named, (mask, e, asked)) =
    ground (arith, eq_iff evt.reply_to "", status_asks prev next (mask % 256) arrow next_named)

-- On an arrow of the lifecycle, or a rejection, that carries an event, a Response is posted exactly
-- when it names a reply address, the transition does not return to DEFAULT and the bit of its mask
-- for that state is set: bit 0 for EVENT_RECEIVED, bit 1 for the others.
pub response_of_iff :
    (t : Texts) (lfdi : String) (now : ℤ) (prev next : EventState) (evt : DerControl)
    → (diagram prev next ≡ true) ⊎ (is_rejection next ≡ true)
    → (is_some (response_of t lfdi now map_transition_to_status prev next (some evt)) ≡ true)
      ↔ Answered next evt
response_of_iff t lfdi now prev next evt arrow =
    (posts t lfdi now prev next evt arrow, posts_of t lfdi now prev next evt arrow)
