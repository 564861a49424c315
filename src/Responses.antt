-- ===== src/Responses.antt =====
-- The acknowledgement of events: cmd/inverterclient/response_hook.go, which posts a Response for a
-- transition of the state machine, and internal/inverter/response_retry.go, which repeats a post
-- that failed for the moment. The clock of CreatedDateTime, SHA-256 with the hex encoding, the
-- formatting of an unknown status, the context and the product of a float64 with a delay are
-- parameters.
pub mod Retry
pub mod RetryBound
pub mod Hooked
use ieee_2030_5_client_go.Shared.{
  ℕ, ◌+◌, ◌/◌, ◌%◌, Bool, true, false, not, ◌&&◌, ◌||◌, Option, none, some, String, ◌==◌, str_eq,
  if◌then◌else◌, ℤ,
}
use ieee_2030_5_client_go.Sep2.{DerControl}
use ieee_2030_5_client_go.StateMachine.{
  EventState, default, event_received, event_started, event_completed, event_cancelled,
  event_rejected,
}

-- The ResponseStatus constants of the core library.
abbrev pub status_received : ℕ
status_received = 1

abbrev pub status_started : ℕ
status_started = 2

abbrev pub status_completed : ℕ
status_completed = 3

abbrev pub status_cancelled : ℕ
status_cancelled = 6

abbrev pub status_superseded : ℕ
status_superseded = 14

-- responseStatusRejectedInvalidEvent.
abbrev pub status_rejected : ℕ
status_rejected = 253

unfoldable pub map_transition_to_status : EventState → EventState → ℕ
map_transition_to_status prev event_received = status_received
map_transition_to_status event_received event_started = status_started
map_transition_to_status event_started event_completed = status_completed
map_transition_to_status prev event_cancelled = status_cancelled
map_transition_to_status prev event_rejected = status_rejected
map_transition_to_status prev next = 0

-- Whether bit 0, and bit 1, of a mask is set.
abbrev pub bit_0 : ℕ → Bool
bit_0 mask = not (mask % 2 == 0)

abbrev pub bit_1 : ℕ → Bool
bit_1 mask = not (mask / 2 % 2 == 0)

unfoldable pub response_required_on : ℕ → ℕ → Bool
response_required_on mask status =
    if status == status_received
    then bit_0 mask
    else if status == status_started
        || (status == status_completed
            || (status == status_cancelled
                || (status == status_superseded || status == status_rejected)))
    then bit_1 mask
    else false

-- What the hook uses of the packages fmt, sha256 and hex.
pub record Texts : Type 0 where
  pub hex_02x : ℕ → String
  pub concat : String → String → String
  pub sha_256_prefix : String → String

unfoldable pub response_status_name : Texts → ℕ → String
response_status_name t status =
    if status == status_received
    then "received"
    else if status == status_started
    then "started"
    else if status == status_completed
    then "completed"
    else if status == status_cancelled
    then "cancelled"
    else if status == status_superseded
    then "superseded-alternate-program"
    else if status == status_rejected
    then "rejected-invalid-event"
    else t.concat "0x" (t.hex_02x status)

-- deriveResponseHref; `sha_256_prefix` is the hex of the first 16 bytes of the sum.
unfoldable pub derive_response_href : Texts → String → ℕ → String
derive_response_href t mrid status =
    t.concat "/response/"
      (t.sha_256_prefix (t.concat (t.concat mrid ":") (response_status_name t status)))

-- DERControlResponse, as the hook fills it.
pub record Response : Type 0 where
  pub href : String
  pub created_date_time : ℤ
  pub end_device_lfdi : String
  pub status : ℕ
  pub subject : String

-- The Response that responseHook posts for a call of the hook, and where to; none where it returns
-- before. ResponseRequired is cut to a uint8.
unfoldable pub response_of :
    Texts
    → String
    → ℤ
    → (EventState → EventState → ℕ)
    → EventState
    → EventState
    → Option DerControl
    → Option (String × Response)
response_of t lfdi now status_of prev next none = none
response_of t lfdi now status_of prev next (some evt) =
    let status = status_of prev next in
    let resp : Response = record {
      href = derive_response_href t evt.mrid status;
      created_date_time = now;
      end_device_lfdi = lfdi;
      status = status;
      subject = evt.mrid;
    } in
    if str_eq evt.reply_to ""
    then none
    else if status == 0
    then none
    else (elim evt.response_required [
      | none ↦ none
      | some mask ↦
          if response_required_on (mask % 256) status then some (evt.reply_to, resp) else none
    ])
