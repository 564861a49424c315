-- ===== src/StateMachine/Lifecycle.antt =====
-- The transitions of a pass of internal/inverter/statemachine.go as a walk through the lifecycle
-- diagram at the head of that file.
use ieee_2030_5_client_go.Shared.{
  ℕ, ◌≡◌, refl, Bool, true, false, ◌&&◌, ◌||◌, List, [], ◌∷◌, ◌++◌, Option, none, some,
  if◌then◌else◌, ◌==◌, is_empty, arith, ℤ,
}
use ieee_2030_5_client_go.Sep2.{DerControl, RejectedControl}
use ieee_2030_5_client_go.Scheduler.{
  ScheduledEvent, Platform, Scheduler, pop_expired, next, on_events_added, on_events_cancelled,
}
use ieee_2030_5_client_go.StateMachine.{
  EventState, default, event_received, event_started, event_completed, event_cancelled,
  event_rejected, Machine, Transition, transition_locked, record_transition_locked, reject_locked,
}
use ieee_2030_5_client_go.StateMachine.Passes.{
  receive, receive_all, accept_added, terminate, cancel_active, complete, receive_head, start_head,
  drain, observe_head, known_mrids,
}
use ieee_2030_5_client_go.StateMachine.Tick.{
  compute_transitions, reject_item, reject_items, refuse_item,
}

-- The position of a state among the constants of EventState.
abbrev pub rank : EventState → ℕ
rank default = 0
rank event_received = 1
rank event_started = 2
rank event_completed = 3
rank event_cancelled = 4
rank event_rejected = 5

abbrev pub is_rejected : EventState → Bool
is_rejected event_rejected = true
is_rejected _ = false

-- The arrows of the diagram.
abbrev pub diagram : EventState → EventState → Bool
diagram default event_received = true
diagram event_received event_started = true
diagram event_received event_cancelled = true
diagram event_started event_cancelled = true
diagram event_started event_completed = true
diagram event_completed default = true
diagram event_cancelled default = true
diagram _ _ = false

-- The arrows of Reject: an event in force is withdrawn without a terminal state.
abbrev pub withdrawal : EventState → EventState → Bool
withdrawal event_received default = true
withdrawal event_started default = true
withdrawal _ _ = false

-- Where a list of transitions leads from a state. Each one starts where the last one ended and
-- follows an arrow, but a rejection, which leaves the state as it is; none otherwise.
pub walk : (EventState → EventState → Bool) → EventState → List Transition → Option EventState
walk arrow s [] = some s
walk arrow s (t ∷ ts) =
    let rest = walk arrow (if is_rejected t.next then s else t.next) ts in
    if rank t.prev == rank s && (is_rejected t.next || arrow s t.next) then rest else none

abbrev then_walk :
    (EventState → EventState → Bool) → Option EventState → List Transition → Option EventState
then_walk arrow none ts = none
then_walk arrow (some s) ts = walk arrow s ts

walk-append :
    (arrow : EventState → EventState → Bool) (s : EventState) (ts us : List Transition)
    → walk arrow s (ts ++ us) ≡ then_walk arrow (walk arrow s ts) us
unfolding walk
walk-append arrow s [] us = refl
walk-append arrow s (t ∷ ts) us =
    ground (arith, walk-append arrow (if is_rejected t.next then s else t.next) ts us)

walk_then :
    (arrow : EventState → EventState → Bool) (s : EventState) {u v : EventState}
    (ts us : List Transition)
    → walk arrow s ts ≡ some u
    → walk arrow u us ≡ some v
    → walk arrow s (ts ++ us) ≡ some v
walk_then arrow s ts us h k = ground (arith, walk-append arrow s ts us)

abbrev Walks : Machine → Machine × List Transition → Type 0
Walks sm (sm', ts) = walk diagram sm.state ts ≡ some sm'.state

receive-walk :
    (arrow : EventState → EventState → Bool) (sm : Machine) (ev : DerControl)
    → let (sm', ts, _) = receive sm ev in walk arrow sm.state ts ≡ some sm'.state
unfolding receive reject_locked walk
receive-walk arrow sm ev = ground arith

receive_all-walk :
    (arrow : EventState → EventState → Bool) (sm : Machine) (evs : List DerControl)
    → let (sm', ts, _) = receive_all sm evs in walk arrow sm.state ts ≡ some sm'.state
unfolding receive_all
receive_all-walk arrow sm [] = unfold walk in refl
receive_all-walk arrow sm (ev ∷ evs) =
    let (sm₁, ts₁, _) = receive sm ev in
    let (_, ts₂, _) = receive_all sm₁ evs in
    walk_then arrow sm.state ts₁ ts₂ (receive-walk arrow sm ev) (receive_all-walk arrow sm₁ evs)

accept_added-walk :
    (sm : Machine) (evs : List DerControl)
    → let (sm', ts, _) = accept_added sm evs in walk diagram sm.state ts ≡ some sm'.state
unfolding accept_added walk
accept_added-walk sm evs = ground (arith, receive_all-walk diagram sm evs)

cancel_active-walk : (sm : Machine) (cs : List DerControl) → Walks sm (cancel_active sm cs)
unfolding cancel_active terminate transition_locked walk
cancel_active-walk sm cs = ground arith

complete-walk : (now : ℤ) (sm : Machine) → Walks sm (complete now sm)
unfolding complete terminate transition_locked walk
complete-walk now sm = ground arith

receive_head-walk : (sm : Machine) (e : ScheduledEvent) → Walks sm (receive_head sm e)
unfolding receive_head record_transition_locked walk
receive_head-walk sm e = ground arith

start_head-walk : (now : ℤ) (sm : Machine) (e : ScheduledEvent) → Walks sm (start_head now sm e)
unfolding start_head terminate transition_locked walk
start_head-walk now sm e = ground arith

drain-walk : (now : ℤ) (sm : Machine) (es : List ScheduledEvent) → Walks sm (drain now sm es)
unfolding drain
drain-walk now sm [] = unfold walk in refl
drain-walk now sm (e ∷ es) =
    let (sm₁, ts₁) = receive_head sm e in
    walk_then diagram sm.state ts₁ (start_head now sm₁ e).1 (receive_head-walk sm e)
      (start_head-walk now sm₁ e)

observe_head-walk : (sm : Machine) (e : Option ScheduledEvent) → Walks sm (observe_head sm e)
unfolding observe_head transition_locked walk
observe_head-walk sm none = refl
observe_head-walk sm (some e) = ground arith

cancel_pass-walk :
    (sm : Machine) (cs : List DerControl)
    → Walks sm (if is_empty cs then (sm, []) else cancel_active sm cs)
cancel_pass-walk sm [] = unfold walk in refl
cancel_pass-walk sm (c ∷ cs) = cancel_active-walk sm (c ∷ cs)

module _ (p : Platform) where
  -- The transitions of a pass of Tick walk through the diagram from the state before it to the state
  -- after it.
  pub compute_transitions-walk :
      (now : ℤ) (added cancelled : List DerControl) (sm : Machine) (sched : Scheduler p)
      → let (sm', _, ts) = compute_transitions p now added cancelled sm sched in
        walk diagram sm.state ts ≡ some sm'.state
  unfolding compute_transitions
  compute_transitions-walk now added cancelled sm sched =
      let (sm₁, ts₁, accepted) = accept_added sm added in
      let (sm₂, ts₂) = if is_empty cancelled then (sm₁, []) else cancel_active sm₁ cancelled in
      let (sm₃, ts₃) = complete now sm₂ in
      let sched₂ =
        on_events_cancelled p (on_events_added p sched accepted) (known_mrids cancelled) in
      let (expired, sched₃) = pop_expired p sched₂ now in
      let (sm₄, ts₄) = drain now sm₃ expired in
      let (sm₅, ts₅) = observe_head sm₄ (next p sched₃) in
      walk_then diagram sm.state ts₁ (ts₂ ++ (ts₃ ++ (ts₄ ++ ts₅))) (accept_added-walk sm added) (
        walk_then diagram sm₁.state ts₂ (ts₃ ++ (ts₄ ++ ts₅)) (cancel_pass-walk sm₁ cancelled) (
          walk_then diagram sm₂.state ts₃ (ts₄ ++ ts₅) (complete-walk now sm₂) (
            walk_then diagram sm₃.state ts₄ ts₅ (drain-walk now sm₃ expired)
              (observe_head-walk sm₄ (next p sched₃)))))

  reject_item-walk :
      (sm : Machine) (sched : Scheduler p) (item : RejectedControl)
      → let (sm', _, ts) = reject_item p sm sched item in
        walk withdrawal sm.state ts ≡ some sm'.state
  unfolding reject_item refuse_item reject_locked transition_locked walk
  reject_item-walk sm sched item = ground arith

  -- The transitions of Reject lead from the state before it to the state after it, by rejections and
  -- by withdrawals of the event in force alone.
  pub reject_items-walk :
      (sm : Machine) (sched : Scheduler p) (items : List RejectedControl)
      → let (sm', _, ts) = reject_items p sm sched items in
        walk withdrawal sm.state ts ≡ some sm'.state
  unfolding reject_items
  reject_items-walk sm sched [] = unfold walk in refl
  reject_items-walk sm sched (item ∷ items) =
      let (sm₁, sched₁, ts₁) = reject_item p sm sched item in
      walk_then withdrawal sm.state ts₁ (reject_items p sm₁ sched₁ items).2
        (reject_item-walk sm sched item) (reject_items-walk sm₁ sched₁ items)
