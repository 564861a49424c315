-- ===== src/StateMachine/Passes.antt =====
-- The steps of computeTransitionsLocked in internal/inverter/statemachine.go, each a function of the
-- machine (and of what it got from the scheduler) that returns the transitions it records.
use ieee_2030_5_client_go.Shared.{
  Bool, not, ◌&&◌, ◌||◌, List, [], ◌∷◌, ◌++◌, Option, none, some, String, str_eq, if◌then◌else◌,
  is_some, is_empty, listed, ℤ, ltb_ℤ,
}
use ieee_2030_5_client_go.Sep2.{DerControl}
use ieee_2030_5_client_go.Scheduler.{ScheduledEvent}
use ieee_2030_5_client_go.StateMachine.{
  EventState, default, event_received, event_started, event_completed, event_cancelled, is_default,
  is_received, is_started, Validator, Machine, Transition, is_zero, transition_locked,
  record_transition_locked, reject_locked,
}

abbrev pub refusal : Option Validator → DerControl → Option String
refusal none ev = none
refusal (some check) ev = check ev

-- One round of the loop over `added`: the transition and the accepted event, if any.
unfoldable pub receive : Machine → DerControl → Machine × List Transition × List DerControl
receive sm ev =
    if listed ev.mrid sm.rejected then (sm, [], []) else (elim (refusal sm.validate ev) [
      | none ↦ (sm, [], ev ∷ [])
      | some err ↦ let (sm', t) = reject_locked sm ev err in (sm', t ∷ [], [])
    ])

unfoldable pub receive_all : Machine → List DerControl → Machine × List Transition × List DerControl
receive_all sm [] = (sm, [], [])
receive_all sm (ev ∷ evs) =
    let (sm₁, ts₁, kept₁) = receive sm ev in
    let (sm₂, ts₂, kept₂) = receive_all sm₁ evs in (sm₂, ts₁ ++ ts₂, kept₁ ++ kept₂)

-- Step 1 of computeTransitionsLocked: which of the added events go to the scheduler.
unfoldable pub accept_added :
    Machine → List DerControl → Machine × List Transition × List DerControl
accept_added sm added =
    if (is_some sm.validate || not (is_empty sm.rejected)) && not (is_empty added)
    then receive_all sm added
    else (sm, [], added)

-- The mRIDs that step 2 forwards, and its map from an mRID to the last event that has it.
unfoldable pub known_mrids : List DerControl → List String
known_mrids [] = []
known_mrids (c ∷ cs) = let rest = known_mrids cs in if str_eq c.mrid "" then rest else c.mrid ∷ rest

unfoldable pub last_with : String → List DerControl → Option DerControl
last_with m [] = none
last_with m (c ∷ cs) = elim (last_with m cs) [
  | some d ↦ some d
  | none ↦ if not (str_eq c.mrid "") && str_eq c.mrid m then some c else none
]

-- A terminal state and the return to DEFAULT in the same pass.
unfoldable pub terminate : Machine → EventState → Option DerControl → Machine × List Transition
terminate sm terminal evt =
    let (sm₁, t₁) = transition_locked sm terminal sm.active_mrid evt in
    let (sm₂, t₂) = transition_locked sm₁ default "" none in (sm₂, t₁ ∷ t₂ ∷ [])

-- The second half of step 2: the active event is among those cancelled.
unfoldable pub cancel_active : Machine → List DerControl → Machine × List Transition
cancel_active sm cancelled =
    if str_eq sm.active_mrid "" then (sm, []) else (elim (last_with sm.active_mrid cancelled) [
      | none ↦ (sm, [])
      | some c ↦
          if is_received sm.state || is_started sm.state
          then terminate sm event_cancelled (some c)
          else (sm, [])
    ])

unfoldable pub has_expired : ℤ → ℤ → Bool
has_expired now expire_at = not (is_zero expire_at) && not (ltb_ℤ now expire_at)

-- Step 3: natural completion.
unfoldable pub complete : ℤ → Machine → Machine × List Transition
complete now sm =
    if is_started sm.state && has_expired now sm.active_expire_at
    then terminate sm event_completed sm.active_der_ctrl
    else (sm, [])

abbrev pub activate : Machine → ScheduledEvent → Machine
activate sm e = record sm {
  active_mrid = e.mrid;
  active_der_ctrl = some e.source;
  active_expire_at = e.expire_at;
}

-- Step 4, from DEFAULT: the RECEIVED step that the caller never observed.
unfoldable pub receive_head : Machine → ScheduledEvent → Machine × List Transition
receive_head sm head =
    if is_default sm.state
    then (let (sm', t) =
          record_transition_locked (activate sm head) default event_received head.mrid
            (some head.source) in
        (sm', t ∷ []))
    else (sm, [])

-- Step 4: the event received is the one that fires.
unfoldable pub start_head : ℤ → Machine → ScheduledEvent → Machine × List Transition
start_head now sm head =
    if is_received sm.state && str_eq sm.active_mrid head.mrid
    then (let (sm₁, t₁) =
          transition_locked
            (record sm { active_der_ctrl = some head.source; active_expire_at = head.expire_at })
            event_started head.mrid (some head.source) in
        let (sm₂, ts) =
          if has_expired now sm₁.active_expire_at
          then terminate sm₁ event_completed sm₁.active_der_ctrl
          else (sm₁, []) in
        (sm₂, t₁ ∷ ts))
    else (sm, [])

-- Step 4 on the events that PopExpired returned: the first alone is looked at.
unfoldable pub drain : ℤ → Machine → List ScheduledEvent → Machine × List Transition
drain now sm [] = (sm, [])
drain now sm (head ∷ rest) =
    let (sm₁, ts₁) = receive_head sm head in
    let (sm₂, ts₂) = start_head now sm₁ head in (sm₂, ts₁ ++ ts₂)

-- Step 5: the head of the queue is raised to RECEIVED.
unfoldable pub observe_head : Machine → Option ScheduledEvent → Machine × List Transition
observe_head sm none = (sm, [])
observe_head sm (some head) =
    if is_default sm.state
    then (let (sm', t) =
          transition_locked (activate sm head) event_received head.mrid (some head.source) in
        (sm', t ∷ []))
    else (sm, [])
