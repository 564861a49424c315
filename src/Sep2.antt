-- ===== src/Sep2.antt =====
-- The fields of the message types of the core library's package pkg/sep2 that the client's code
-- reads. A pointer is an option. `payload` stands for all the fields of a DERControl that the
-- modelled code only carries along; `Copy` is the identity on values.
use ieee_2030_5_client_go.Shared.{ℕ, String, Option, ℤ}

-- DateTimeInterval: `start` in seconds since the Unix epoch (int64), `duration` in seconds (uint32).
pub record Interval : Type 0 where
  pub start : ℤ
  pub duration : ℕ

-- DERControl. `status` is EventStatus.CurrentStatus (uint8), or none where EventStatus is nil.
pub record DerControl : Type 0 where
  pub mrid : String
  pub interval : Option Interval
  pub randomize_start : Option ℤ
  pub randomize_duration : Option ℤ
  pub status : Option ℕ
  pub reply_to : String
  pub response_required : Option ℕ
  pub payload : ℕ

-- RejectedDERControl: the event fields of an item whose DERControlBase did not decode, and the
-- text of the error.
pub record RejectedControl : Type 0 where
  pub event : DerControl
  pub err : String

-- EventStatusScheduled and EventStatusCancelled.
abbrev pub status_scheduled : ℕ
status_scheduled = 0

abbrev pub status_cancelled : ℕ
status_cancelled = 2
