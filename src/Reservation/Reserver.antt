-- ===== src/Reservation/Reserver.antt =====
-- The state of the reserver of cmd/inverterclient/reservation.go and the parts of the
-- withdrawals that make no call. What it uses of the SEP2 client, of the clock,
-- of the request file and of the core library is a parameter over a world that they read and change.
-- Pointers to a request are numbers into a heap, since `cur` and `stale` share requests. The nil
-- receiver, the log lines and the energy accounting of the dispatcher are left out.
use ieee_2030_5_client_go.Shared.{
  ℕ, Bool, true, false, ◌||◌, List, [], ◌∷◌, ◌++◌, Option, none, some, String, str_eq, ◌==◌,
  if◌then◌else◌, ℤ, pos, ◌+ℤ◌, ltb_ℤ, sec,
}
use ieee_2030_5_client_go.Shared.Float.{Float}
use ieee_2030_5_client_go.Reservation.{
  FlowRequest, request_cancelled, FlowResponse, Settings, Overlay, Facts,
}
use ieee_2030_5_client_go.Reservation.Request.{unix}
use ieee_2030_5_client_go.Reservation.Answer.{AnswerKind, GrantTerms}

-- The errors of a PUT as far as permanentRefusal tells them apart.
pub data PutError : Type 0 where
  not_found off_server transient : PutError

-- FlowReservationResponseResponse.
pub record Receipt : Type 0 where
  pub created : ℤ
  pub lfdi : String
  pub status : ℕ
  pub subject : String

-- reservationClient, the clock, newMRID, consumeOverlay, and the value of an encoded quantity. An
-- answer none to a PUT is success; a response list comes with its `all`.
pub record Client (W : Type 0) : Type 0 where
  pub scaled : ℤ → ℤ → Float
  pub now : W → ℤ × W
  pub new_mrid : String → ℤ → W → Option String × W
  pub consume_overlay : W → Option Overlay × W
  pub post_request : String → FlowRequest → W → Option String × W
  pub put_request : String → FlowRequest → W → Option PutError × W
  pub get_responses : String → W → Option (List FlowResponse × ℕ) × W
  pub post_receipt : String → Receipt → W → Bool × W

-- The fields of reserver that do not change.
pub record Config : Type 0 where
  pub self_lfdi : String
  pub req_href : String
  pub resp_href : String
  pub settings : Settings
  pub poll_s : ℤ

-- currentRequest.
pub record Current : Type 0 where
  pub facts : Facts
  pub mrid : String
  pub href : String
  pub req : FlowRequest
  pub kind : AnswerKind
  pub terms : GrantTerms
  pub resp_mrid : String
  pub withdrawn : Bool
  pub done : Bool
  pub acked : List String
  pub owed : List String

-- staleWithdrawal.
pub record Stale : Type 0 where
  pub id : ℕ
  pub next : ℤ
  pub wait : ℤ

-- reserver; `grant` is the terms of the dispatcher, and requests from `fresh` on are not yet made.
pub record Reserver : Type 0 where
  pub heap : ℕ → Current
  pub fresh : ℕ
  pub cur : Option ℕ
  pub next_poll : ℤ
  pub stale : List Stale
  pub grant : Option GrantTerms

unfoldable pub write : ℕ → Current → (ℕ → Current) → ℕ → Current
write i c heap j = if i == j then c else heap j

unfoldable pub max_ℤ : ℤ → ℤ → ℤ
max_ℤ a b = if ltb_ℤ a b then b else a

unfoldable pub min_ℤ : ℤ → ℤ → ℤ
min_ℤ a b = if ltb_ℤ b a then b else a

abbrev pub max_withdraw_backoff : ℤ
max_withdraw_backoff = sec (pos 300)

unfoldable pub poll_interval : Config → ℤ
poll_interval cf = max_ℤ (sec cf.poll_s) (sec (pos 1))

abbrev pub grace : Config → ℤ
grace cf = sec cf.settings.grace_s

-- The two results of withdraw.
pub data Attempt : Type 0 where
  accepted retryable permanent : Attempt

unfoldable pub permanent_refusal : PutError → Bool
permanent_refusal not_found = true
permanent_refusal off_server = true
permanent_refusal transient = false

-- The request that withdraw puts.
unfoldable pub cancelled_request : Current → ℤ → FlowRequest
cancelled_request c now = record c.req {
  href = c.href;
  status_time = unix now;
  status = request_cancelled;
}

-- The rest of withdraw, from the answer to its PUT.
unfoldable pub after_put : Option PutError → ℕ → (ℕ → Current) → Attempt × (ℕ → Current)
after_put none i heap = (accepted, write i (record (heap i) { withdrawn = true }) heap)
after_put (some e) i heap = ((if permanent_refusal e then permanent else retryable), heap)

unfoldable pub is_kept : ℕ → List Stale → Bool
is_kept i [] = false
is_kept i (s ∷ ss) = s.id == i || is_kept i ss

-- retryLater.
unfoldable pub retry_later : Config → ℕ → ℤ → Reserver → Reserver
retry_later cf i now r =
    let c = r.heap i in
    let wait = poll_interval cf in
    if c.done || (c.withdrawn || (str_eq c.href "" || is_kept i r.stale))
    then r
    else record r { stale = r.stale ++ (record { id = i; next = now +ℤ wait; wait = wait } ∷ []) }

abbrev pub later_if : Config → Attempt → ℕ → ℤ → Reserver → Reserver
later_if cf retryable i now r = retry_later cf i now r
later_if cf _ i now r = r

abbrev pub is_cur : ℕ → Option ℕ → Bool
is_cur i none = false
is_cur i (some j) = i == j

-- What Withdraw and retryWithdrawals do with the grant after an attempt, `true` where it was on the
-- request being followed.
unfoldable pub drop_grant : Attempt → Bool → Option GrantTerms → Option GrantTerms
drop_grant accepted followed g = if followed then none else g
drop_grant _ followed g = g

-- What retryWithdrawals keeps of an entry after an attempt.
unfoldable pub keep_stale : Attempt → ℤ → Stale → Option Stale
keep_stale retryable now s =
    let wait = min_ℤ (s.wait +ℤ s.wait) max_withdraw_backoff in
    some (record s { wait = wait; next = now +ℤ wait })
keep_stale _ now s = none

abbrev pub prepend : Option Stale → List Stale → List Stale
prepend none ss = ss
prepend (some s) ss = s ∷ ss
