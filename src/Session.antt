-- ===== src/Session.antt =====
-- The control session of a managed device: cmd/inverterclient/managed_controls.go, with what it uses
-- of main.go, managed.go and internal/inverter. A read of the server is an input, with its error as
-- none; the context, subscriptions and log lines are left out.
pub mod Programs
pub mod Selected
pub mod Readable
pub mod Offered
pub mod Entered
pub mod Assigned
pub mod Chosen
pub mod Walk
pub mod Snapshots
pub mod Follow
pub mod Backed
pub mod Lives
use ieee_2030_5_client_go.Shared.{
  ℕ, zero, suc, ◌-◌, Bool, true, false, not, ◌&&◌, List, [], ◌∷◌, ◌++◌, Option, none, some, String,
  str_eq, if◌then◌else◌, ◌==◌, is_some, ℤ, pos, ◌+ℤ◌, ltb_ℤ, sec,
}
use ieee_2030_5_client_go.Shared.Map.{lookup, string_eq}
use ieee_2030_5_client_go.Sep2.{DerControl}
use ieee_2030_5_client_go.Scheduler.{Platform, Scheduler}
use ieee_2030_5_client_go.ControlCache.{Cache}
use ieee_2030_5_client_go.StateMachine.{
  EventState, is_started, event_started, Machine, Snapshot, Call, current,
}
use ieee_2030_5_client_go.StateMachine.Tick.{is_cancelled, tick, reject}
use ieee_2030_5_client_go.Responses.{map_transition_to_status, status_cancelled, status_superseded}

-- A DERControlListResult's cache by mRID, as Snapshot copies it.
abbrev pub Controls : Type 0
Controls = List (String × DerControl)

-- The first loop of diffSnapshots.
unfoldable pub changed_in : Controls → Controls → List DerControl × List DerControl
changed_in prev [] = ([], [])
changed_in prev ((m, c) ∷ curr) =
    let (added, cancelled) = changed_in prev curr in
    if is_cancelled c.status
    then (added, c ∷ cancelled)
    else if not (is_some (lookup m prev))
    then (c ∷ added, cancelled)
    else (added, cancelled)

-- Its second loop.
unfoldable pub removed_from : Controls → Controls → List DerControl
removed_from curr [] = []
removed_from curr ((m, p) ∷ prev) =
    let rest = removed_from curr prev in if not (is_some (lookup m curr)) then p ∷ rest else rest

unfoldable pub diff_snapshots : Controls → Controls → List DerControl × List DerControl
diff_snapshots prev curr =
    let (added, cancelled) = changed_in prev curr in (added, cancelled ++ removed_from curr prev)

module _ (p : Platform) where
  unfoldable pub step_events :
      ℤ → Cache → Controls → Machine → Scheduler p → Machine × Scheduler p × List Call × Controls
  step_events now cache prev sm sched =
      let (sm₁, sched₁, calls₁) = reject p sm sched cache.rejected in
      let curr = cache.controls in
      let (added, cancelled) = diff_snapshots prev curr in
      let (sm₂, sched₂, calls₂) = tick p now added cancelled sm₁ sched₁ in
      (sm₂, sched₂, calls₁ ++ calls₂, curr)

-- DefaultDERControl: its DERControlBase, a pointer to a struct that is carried along.
pub record DefaultControl (Base : Type 0) : Type 0 where
  pub control_base : Option Base

module _ {Base : Type 0} (base_of : DerControl → Option Base) where
  event_base : Snapshot → Option Base
  event_base snap =
      if is_started snap.state
      then elim snap.active_der_control [ none ↦ none | some c ↦ base_of c ]
      else none

  default_base : Option (DefaultControl Base) → Option Base
  default_base none = none
  default_base (some d) = d.control_base

  first_of : Option Base → Option Base → Option Base
  first_of none o = o
  first_of (some b) o = some b

  -- ActiveControlBase of internal/inverter/applycontrols_base.go.
  unfoldable pub active_control_base : Snapshot → Option (DefaultControl Base) → Option Base
  unfolding event_base default_base first_of
  active_control_base snap d = first_of (event_base snap) (default_base d)

  -- controlSession.base and active, for a mode of controls.response.
  unfoldable pub session_base : String → Machine → Option (DefaultControl Base) → Option Base
  unfolding active_control_base
  session_base mode sm d =
      if not (str_eq mode "follow") then none else active_control_base (current sm) d

  unfoldable pub session_active : String → Machine → Bool
  unfolding event_base
  session_active mode sm =
      if not (str_eq mode "follow") then false else is_some (event_base (current sm))

-- pinPollInterval.
unfoldable pub pin_poll_interval : ℕ → ℤ
pin_poll_interval rate =
    let d = sec (pos rate) in
    let d' = if not (ltb_ℤ (pos 0) d) then sec (pos 1800) else d in
    if ltb_ℤ d' (sec (pos 60)) then sec (pos 60) else d'

-- defaultControlPoll, rewalkPollFactor times a poll, and minRewalk.
abbrev pub default_control_poll : ℤ
default_control_poll = sec (pos 900)

abbrev pub min_rewalk : ℤ
min_rewalk = sec (pos 300)

-- controlSession.pollInterval outside tests, for controls.poll_s and the pollRate of the server.
unfoldable pub session_poll_interval : ℤ → ℕ → ℤ
unfolding pin_poll_interval
session_poll_interval poll_s rate =
    if ltb_ℤ (pos 0) poll_s
    then sec poll_s
    else if not (rate == 0)
    then pin_poll_interval rate
    else default_control_poll

-- controlSession.rewalkInterval outside tests.
unfoldable pub rewalk_interval : ℤ → ℤ
rewalk_interval poll =
    let d = (poll +ℤ poll) +ℤ (poll +ℤ poll) in if ltb_ℤ d min_rewalk then min_rewalk else d

-- maxMirrorBackoff.
abbrev pub max_mirror_backoff : ℤ
max_mirror_backoff = sec (pos 300)

-- The loop of mirrorBackoff, for the rounds left.
unfoldable pub doubled : ℕ → ℤ → ℤ
doubled zero d = d
doubled (suc n) d = let more = doubled n (d +ℤ d) in if ltb_ℤ d max_mirror_backoff then more else d

-- mirrorBackoff of cmd/inverterclient/managed.go.
unfoldable pub mirror_backoff : ℤ → ℕ → ℤ
unfolding doubled
mirror_backoff base failures =
    let d = doubled (failures - 1) base in
    if ltb_ℤ max_mirror_backoff d then max_mirror_backoff else d

-- The status that a session's hook posts for a transition, while it drops a program or not.
unfoldable pub session_status : Bool → EventState → EventState → ℕ
session_status superseded prev next =
    let status = map_transition_to_status prev next in
    if status == status_cancelled && superseded then status_superseded else status
