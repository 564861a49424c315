-- ===== src/Reservation.antt =====
-- The flow reservation of the aggregator: cmd/inverterclient/reservation_logic.go and reservation.go.
-- The messages of the core library that they exchange, and the settings of a request. Instants are in
-- nanoseconds, those in messages in seconds.
pub mod Encoding
pub mod Encoded
pub mod Request
pub mod Requested
pub mod Answer
pub mod Newest
pub mod Granted
pub mod Reserver
pub mod Withdrawing
pub mod Withdrawn
pub mod Reading
pub mod Installed
pub mod Followed
pub mod Backoff
pub mod Sequence
use ieee_2030_5_client_go.Shared.{ℕ, Option, String, ℤ}
use ieee_2030_5_client_go.Shared.Float.{Float}
use ieee_2030_5_client_go.Sep2.{Interval}

-- ActivePower, SignedRealEnergy and the like: a value and a power of ten.
pub record Quantity : Type 0 where
  pub multiplier : ℤ
  pub value : ℤ

-- FlowReservationRequest. `status` is RequestStatus.RequestStatus, at `status_time`.
pub record FlowRequest : Type 0 where
  pub href : String
  pub mrid : String
  pub creation_time : ℤ
  pub energy : Quantity
  pub power : Quantity
  pub interval : Interval
  pub status_time : ℤ
  pub status : ℕ

abbrev pub request_requested : ℕ
request_requested = 0

abbrev pub request_cancelled : ℕ
request_cancelled = 1

-- FlowReservationResponse. `status` is EventStatus.CurrentStatus, or none where EventStatus is nil.
pub record FlowResponse : Type 0 where
  pub mrid : String
  pub subject : String
  pub creation_time : ℤ
  pub status : Option ℕ
  pub interval : Option Interval
  pub energy_available : Option Quantity
  pub power_available : Option Quantity
  pub reply_to : String
  pub response_required : Option ℕ

-- frqSettings.
pub record Settings : Type 0 where
  pub energy_wh : Float
  pub power_w : Float
  pub start_in_s : ℤ
  pub duration_s : ℤ
  pub min_lead_s : ℤ
  pub grace_s : ℤ

-- frqOverlay: only the fields that the operator gave.
pub record Overlay : Type 0 where
  pub energy_wh : Option Float
  pub power_w : Option Float
  pub start_in_s : Option ℤ
  pub duration_s : Option ℤ

-- requestFacts.
pub record Facts : Type 0 where
  pub from : ℤ
  pub until : ℤ
  pub energy_wh : Float
  pub power_w : Float
