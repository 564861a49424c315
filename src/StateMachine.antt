-- ===== src/StateMachine.antt =====
-- internal/inverter/statemachine.go: the lifecycle of the active DERControl. A pass under the mutex
-- is a function of the machine and the scheduler that returns both and the list of transitions; a
-- hook is a number, and firing it is an entry of a list of calls. Log lines are left out.
pub mod Passes
pub mod Tick
pub mod Lifecycle
pub mod Invariant
pub mod Idle
pub mod Refusal
pub mod Kept
pub mod Named
pub mod Withdrawal
pub mod Trace
pub mod Quiet
pub mod Liveness
pub mod Stranding
pub mod Collision
use ieee_2030_5_client_go.Shared.{
  ℕ, Bool, true, false, not, ◌&&◌, ◌||◌, List, [], ◌∷◌, ◌++◌, map, Option, none, some, String,
  str_eq, if◌then◌else◌, ◌==◌, is_some, is_empty, listed, ℤ, negsuc, ltb_ℤ, eqb_ℤ,
}
use ieee_2030_5_client_go.Sep2.{DerControl, RejectedControl, status_cancelled}
use ieee_2030_5_client_go.Scheduler.{
  ScheduledEvent, Platform, Scheduler, on_events_added, on_events_cancelled, pop_expired, next,
}

pub data EventState : Type 0 where
  default event_received event_started event_completed event_cancelled event_rejected : EventState

-- EventState.String.
unfoldable pub to_string : EventState → String
to_string default = "DEFAULT"
to_string event_received = "EVENT_RECEIVED"
to_string event_started = "EVENT_STARTED"
to_string event_completed = "EVENT_COMPLETED"
to_string event_cancelled = "EVENT_CANCELLED"
to_string event_rejected = "EVENT_REJECTED"

abbrev pub is_default : EventState → Bool
is_default default = true
is_default _ = false

abbrev pub is_received : EventState → Bool
is_received event_received = true
is_received _ = false

abbrev pub is_started : EventState → Bool
is_started event_started = true
is_started _ = false

-- A registered TransitionHook.
abbrev pub Hook : Type 0
Hook = ℕ

-- The check of SetValidator: the text of the error, or none if the event is accepted.
abbrev pub Validator : Type 0
Validator = DerControl → Option String

pub record Machine : Type 0 where
  pub state : EventState
  pub active_mrid : String
  pub active_der_ctrl : Option DerControl
  pub active_expire_at : ℤ
  pub hook : Option Hook
  pub hooks : List Hook
  pub validate : Option Validator
  pub rejected : List String

pub record Transition : Type 0 where
  pub prev : EventState
  pub next : EventState
  pub mrid : String
  pub evt : Option DerControl
  pub hook : Option Hook
  pub hooks : List Hook

-- time.Time{}: the first of January of the year 1, in nanoseconds from the Unix epoch.
abbrev pub zero_time : ℤ
zero_time = negsuc 62135596799999999999

abbrev pub is_zero : ℤ → Bool
is_zero t = eqb_ℤ t zero_time

unfoldable pub new_state_machine : Machine
new_state_machine = record {
  state = default;
  active_mrid = "";
  active_der_ctrl = none;
  active_expire_at = zero_time;
  hook = none;
  hooks = [];
  validate = none;
  rejected = [];
}

unfoldable pub on_transition : Machine → Option Hook → Machine
on_transition sm h = record sm { hook = h }

unfoldable pub set_validator : Machine → Option Validator → Machine
set_validator sm v = record sm { validate = v }

-- A nil hook is ignored.
unfoldable pub add_transition_hook : Machine → Option Hook → Machine
add_transition_hook sm none = sm
add_transition_hook sm (some h) = record sm { hooks = sm.hooks ++ h ∷ [] }

pub record Snapshot : Type 0 where
  pub state : EventState
  pub active_mrid : String
  pub active_der_control : Option DerControl

unfoldable pub current : Machine → Snapshot
current sm = record {
  state = sm.state;
  active_mrid = sm.active_mrid;
  active_der_control = sm.active_der_ctrl;
}

slip : Machine → EventState → EventState → String → Option DerControl → Transition
slip sm prev next mrid evt = record {
  prev = prev;
  next = next;
  mrid = mrid;
  evt = evt;
  hook = sm.hook;
  hooks = sm.hooks;
}

enter : EventState → Machine → Machine
enter default sm = record sm {
  state = default;
  active_mrid = "";
  active_der_ctrl = none;
  active_expire_at = zero_time;
}
enter s sm = record sm { state = s }

unfoldable pub transition_locked :
    Machine → EventState → String → Option DerControl → Machine × Transition
unfolding slip enter
transition_locked sm next mrid evt = (enter next sm, slip sm sm.state next mrid evt)

unfoldable pub record_transition_locked :
    Machine → EventState → EventState → String → Option DerControl → Machine × Transition
unfolding slip
record_transition_locked sm prev next mrid evt =
    (record sm { state = next }, slip sm prev next mrid evt)

unfoldable pub reject_locked : Machine → DerControl → String → Machine × Transition
unfolding slip
reject_locked sm evt err = (
  record sm { rejected = evt.mrid ∷ sm.rejected },
  slip sm sm.state event_rejected evt.mrid (some evt),
)

-- A hook's invocation.
pub record Call : Type 0 where
  pub hook : Hook
  pub prev : EventState
  pub next : EventState
  pub evt : Option DerControl

call : Transition → Hook → Call
call t h = record { hook = h; prev = t.prev; next = t.next; evt = t.evt }

calls_of : Transition → List Call
unfolding call
calls_of t = elim t.hook [ none ↦ map (call t) t.hooks | some h ↦ call t h ∷ map (call t) t.hooks ]

unfoldable pub fire_transitions : List Transition → List Call
unfolding calls_of
fire_transitions [] = []
fire_transitions (t ∷ ts) = calls_of t ++ fire_transitions ts
