-- ===== src/SidecarClient.antt =====
-- internal/sim/gridlabd/client.go: the client of the fleet sidecar, over one connection that carries
-- one request at a time. encoding/json and the sidecar's answers are the fields of a Link; what
-- becomes of an attempt (deadlines, I/O errors, a caller that gives up) is an input. The lock makes
-- the calls a sequence; the drain of an abandoned reply belongs to the call that it finishes.
pub mod Sync
pub mod Served
pub mod Stopped
pub mod Cancelled
pub mod Operations
pub mod Items
use ieee_2030_5_client_go.Shared.{
  ℕ, ◌+◌, ◌%◌, ◌^◌, Bool, true, false, not, ◌&&◌, Option, none, some, List, [], ◌∷◌, ◌++◌, String,
  str_eq, if◌then◌else◌, ◌==◌, ltb_ℤ, ℤ, pos, ◌⊎◌, inl, inr,
}

pub record SetItem (V : Type 0) : Type 0 where
  pub object : String
  pub property : String
  pub value : V

pub record GetItem : Type 0 where
  pub object : String
  pub property : String

-- The arguments of each operation.
pub data Args (V : Type 0) : Type 0 where
  no_args : Args V
  protocol : ℕ → Args V
  set_items : List (SetItem V) → Args V
  get_items : List GetItem → Args V
  time : String → Args V

-- wireRequest.
pub record WireRequest (V : Type 0) : Type 0 where
  pub id : ℕ
  pub op : String
  pub args : Args V

-- wireErrorBody.
pub record WireErrorBody : Type 0 where
  pub code : String
  pub message : String

-- wireReply, with the result still encoded.
pub record WireReply (Raw : Type 0) : Type 0 where
  pub id : ℕ
  pub is_ok : Bool
  pub result : Raw
  pub error : Option WireErrorBody

-- The lines of the wire, encoding/json, and the sidecar: its answer to a line, in each state.
pub record Link (V Raw Line Model : Type 0) : Type 0 where
  pub marshal : WireRequest V → Option Line
  pub unmarshal : Line → Option (WireReply Raw)
  pub serve : Line → Model → Line × Model

-- An I/O error, as far as it matters here.
pub data Fault : Type 0 where
  closed_connection timed_out lost : Fault

pub data ContextError : Type 0 where
  cancelled deadline_exceeded : ContextError

-- The errors that markBroken is called with; all wrap ErrConnectionBroken.
pub data Cause : Type 0 where
  undecodable : Cause
  id_mismatch : ℕ → ℕ → Cause
  worker_dead : String → Cause
  no_deadline : Cause
  io : Fault → Cause

pub data CallError : Type 0 where
  connection_broken : CallError
  broke : Cause → CallError
  context : ContextError → CallError
  encode : CallError
  remote : String → String → CallError
  decode : CallError
  mismatch : CallError

pub data Result {ℓ} (A : Type ℓ) : Type ℓ where
  ok : A → Result A
  err : CallError → Result A

-- Client. Identifiers are int64, kept as bit patterns.
pub record Client : Type 0 where
  pub next_id : ℕ
  pub timeout : ℤ
  pub broken : Option Cause

-- The client, its connection with the replies not yet read, and the sidecar behind it.
pub record Conn (Line Model : Type 0) : Type 0 where
  pub client : Client
  pub closed : Bool
  pub owed : List Line
  pub model : Model

-- What becomes of the round trip: the write fails, with the line delivered or not; the read fails;
-- or the reply is read.
pub data Trip : Type 0 where
  write_fails : Bool → Fault → Trip
  read_fails : Fault → Trip
  answered : Trip

-- One call's circumstances: whether the check before the lock saw the connection broken, what the
-- context says once the lock is held, whether SetDeadline works, the round trip, and whether the
-- caller's context ends before the reply is there.
pub record Attempt : Type 0 where
  pub early : Bool
  pub ctx_err : Option ContextError
  pub deadline_set : Bool
  pub trip : Trip
  pub gives_up : Option ContextError

-- What a program does with a client, one after the other.
pub data Use (V : Type 0) : Type 0 where
  calls : Attempt → String → Args V → Use V
  closes : Use V

module _ {V Raw Line Model : Type 0} (link : Link V Raw Line Model) where
  -- Dial, once the connection stands; a timeout that is not positive is refused.
  unfoldable pub dial_client : ℤ → Model → Option (Conn Line Model)
  dial_client timeout m =
      if not (ltb_ℤ (pos 0) timeout)
      then none
      else some (record {
        client = record { next_id = 0; timeout = timeout; broken = none };
        closed = false;
        owed = [];
        model = m;
      })

  -- Close.
  unfoldable pub close_client : Conn Line Model → Conn Line Model
  close_client c = record c { closed = true }

  first_cause : Option Cause → Cause → Cause
  first_cause none cause = cause
  first_cause (some old) cause = old

  -- markBroken: the first cause is kept, and the connection is closed.
  unfoldable pub mark_broken : Cause → Conn Line Model → Conn Line Model
  unfolding first_cause
  mark_broken cause c = record c {
    client = record c.client { broken = some (first_cause c.client.broken cause) };
    closed = true;
  }

  abbrev breaks : Cause → Conn Line Model → Result Raw × Conn Line Model
  breaks cause c = (err (broke cause), mark_broken cause c)

  pub refusal : Option WireErrorBody → Conn Line Model → Result Raw × Conn Line Model
  refusal none c = (err (remote "" ""), c)
  refusal (some e) c =
      if str_eq e.code "worker_dead"
      then breaks (worker_dead e.message) c
      else (err (remote e.code e.message), c)

  pub decoded : ℕ → Option (WireReply Raw) → Conn Line Model → Result Raw × Conn Line Model
  unfolding refusal
  decoded id none c = breaks undecodable c
  decoded id (some r) c =
      if not (r.id == id)
      then breaks (id_mismatch r.id id) c
      else if not r.is_ok
      then refusal r.error c
      else (ok r.result, c)

  -- decodeReply.
  unfoldable pub decode_reply : ℕ → Line → Conn Line Model → Result Raw × Conn Line Model
  unfolding decoded
  decode_reply id line c = decoded id (link.unmarshal line) c

  -- The sidecar reads the line and writes its reply.
  pub delivered : Line → Conn Line Model → Conn Line Model
  delivered line c =
      let (reply, m) = link.serve line c.model in
      record c { owed = c.owed ++ reply ∷ []; model = m }

  pub next_line : List Line → Conn Line Model → (Fault ⊎ Line) × Conn Line Model
  next_line [] c = (inl lost, c)
  next_line (l ∷ ls) c = (inr l, record c { owed = ls })

  pub trip_on : Trip → Line → Conn Line Model → (Fault ⊎ Line) × Conn Line Model
  unfolding delivered next_line
  trip_on (write_fails whole f) line c = (inl f, if whole then delivered line c else c)
  trip_on (read_fails f) line c = (inl f, delivered line c)
  trip_on answered line c = let c' = delivered line c in next_line c'.owed c'

  -- The goroutine of call: write the line, read a reply.
  unfoldable pub round_trip : Trip → Line → Conn Line Model → (Fault ⊎ Line) × Conn Line Model
  unfolding trip_on
  round_trip t line c = if c.closed then (inl closed_connection, c) else trip_on t line c

  -- The end of call, and drain: an I/O error breaks the connection, a line is decoded.
  unfoldable pub finish : ℕ → (Fault ⊎ Line) × Conn Line Model → Result Raw × Conn Line Model
  unfolding decode_reply
  finish id (inl f, c) = breaks (io f) c
  finish id (inr line, c) = decode_reply id line c

  -- A caller that gives up gets its context's error, and the reply is drained.
  pub abandon : Option ContextError → Result Raw × Conn Line Model → Result Raw × Conn Line Model
  abandon none r = r
  abandon (some e) (res, c) = (err (context e), c)

  pub send : Attempt → ℕ → Option Line → Conn Line Model → Result Raw × Conn Line Model
  unfolding abandon finish round_trip
  send a id none c = (err encode, c)
  send a id (some line) c =
      if ltb_ℤ (pos 0) c.client.timeout && not (a.deadline_set && not c.closed)
      then breaks no_deadline c
      else abandon a.gives_up (finish id (round_trip a.trip line c))

  -- c.nextID++.
  pub numbered : Conn Line Model → Conn Line Model
  numbered c = record c { client = record c.client { next_id = (c.client.next_id + 1) % 2 ^ 64 } }

  -- The request with the next identifier.
  abbrev pub request : String → Args V → Conn Line Model → WireRequest V
  request op args c = record { id = c.client.next_id; op = op; args = args }

  pub under_lock :
      Attempt
      → Option ContextError
      → String
      → Args V
      → Conn Line Model
      → Result Raw × Conn Line Model
  unfolding send numbered
  under_lock a (some e) op args c = (err (context e), c)
  under_lock a none op args c =
      send a c.client.next_id (link.marshal (request op args c)) (numbered c)

  pub locked :
      Attempt → Option Cause → String → Args V → Conn Line Model → Result Raw × Conn Line Model
  unfolding under_lock
  locked a (some cause) op args c = (err connection_broken, c)
  locked a none op args c = under_lock a a.ctx_err op args c

  -- Client.call.
  unfoldable pub call : Attempt → String → Args V → Conn Line Model → Result Raw × Conn Line Model
  unfolding locked
  call a op args c =
      if a.early then (err connection_broken, c) else locked a c.client.broken op args c

  unfoldable pub use_one : Use V → Conn Line Model → Conn Line Model
  use_one (calls a op args) c = (call a op args c).1
  use_one closes c = close_client c

  unfoldable pub use_all : List (Use V) → Conn Line Model → Conn Line Model
  unfolding use_one
  use_all [] c = c
  use_all (u ∷ us) c = use_all us (use_one u c)
