-- ===== src/StateMachine/Invariant.antt =====
-- What holds of the machine and the queue between two calls of Tick or Reject in
-- internal/inverter/statemachine.go.
use ieee_2030_5_client_go.Shared.{
  ◌≡◌, refl, List, [], ◌∷◌, Option, none, some, String, eq_iff, arith, ℤ, All, is_empty,
  if◌then◌else◌,
}
use ieee_2030_5_client_go.Sep2.{DerControl, RejectedControl}
use ieee_2030_5_client_go.Scheduler.{
  ScheduledEvent, Platform, Scheduler, pop_expired, next, first, on_events_added,
  on_events_cancelled,
}
use ieee_2030_5_client_go.Scheduler.Order.{
  IsEntry, IsQueue, on_events_added-IsQueue, on_events_cancelled-IsQueue, pop_expired-IsQueue,
  pop_expired_entries,
}
use ieee_2030_5_client_go.StateMachine.{
  EventState, default, event_received, event_started, event_completed, event_cancelled,
  event_rejected, Machine, zero_time, transition_locked, record_transition_locked, reject_locked,
  new_state_machine,
}
use ieee_2030_5_client_go.StateMachine.Passes.{
  receive, receive_all, accept_added, known_mrids, terminate, cancel_active, complete, receive_head,
  start_head, drain, observe_head,
}
use ieee_2030_5_client_go.StateMachine.Tick.{
  compute_transitions, refuse_item, reject_item, reject_items,
}

-- The active control stands under the active mRID.
abbrev pub IsActive : String → Option DerControl → Type 0
IsActive m none = ⊥
IsActive m (some c) = c.mrid ≡ m

-- The machine rests in DEFAULT with nothing active, or in RECEIVED or STARTED with an active event.
abbrev pub Rests : EventState → String → Option DerControl → ℤ → Type 0
Rests default m c t = (m ≡ "") × (c ≡ none) × (t ≡ zero_time)
Rests event_received m c t = IsActive m c
Rests event_started m c t = IsActive m c
Rests event_completed m c t = ⊥
Rests event_cancelled m c t = ⊥
Rests event_rejected m c t = ⊥

abbrev pub IsResting : Machine → Type 0
IsResting sm = Rests sm.state sm.active_mrid sm.active_der_ctrl sm.active_expire_at

pub new_state_machine-IsResting : IsResting new_state_machine
unfolding new_state_machine
new_state_machine-IsResting = (refl, refl, refl)

receive-IsResting : (sm : Machine) (ev : DerControl) → IsResting sm → IsResting (receive sm ev).0
unfolding receive reject_locked
receive-IsResting sm ev h = ground arith

receive_all-IsResting :
    (sm : Machine) (evs : List DerControl) → IsResting sm → IsResting (receive_all sm evs).0
unfolding receive_all
receive_all-IsResting sm [] h = h
receive_all-IsResting sm (ev ∷ evs) h =
    receive_all-IsResting (receive sm ev).0 evs (receive-IsResting sm ev h)

pub accept_added-IsResting :
    (sm : Machine) (evs : List DerControl) → IsResting sm → IsResting (accept_added sm evs).0
unfolding accept_added
accept_added-IsResting sm evs h = ground (arith, receive_all-IsResting sm evs h)

cancel_active-IsResting :
    (sm : Machine) (cs : List DerControl) → IsResting sm → IsResting (cancel_active sm cs).0
unfolding cancel_active terminate transition_locked
cancel_active-IsResting sm cs h = ground arith

complete-IsResting : (now : ℤ) (sm : Machine) → IsResting sm → IsResting (complete now sm).0
unfolding complete terminate transition_locked
complete-IsResting now sm h = ground arith

receive_head-IsResting :
    (sm : Machine) (e : ScheduledEvent) → IsEntry e → IsResting sm → IsResting (receive_head sm e).0
unfolding receive_head record_transition_locked
receive_head-IsResting sm e v h = ground arith

start_head-IsResting :
    (now : ℤ) (sm : Machine) (e : ScheduledEvent)
    → IsEntry e
    → IsResting sm
    → IsResting (start_head now sm e).0
unfolding start_head terminate transition_locked
start_head-IsResting now sm e v h = ground (arith, eq_iff sm.active_mrid e.mrid)

drain-IsResting :
    (now : ℤ) (sm : Machine) (es : List ScheduledEvent)
    → All IsEntry es
    → IsResting sm
    → IsResting (drain now sm es).0
unfolding drain
drain-IsResting now sm [] v h = h
drain-IsResting now sm (e ∷ es) v h =
    start_head-IsResting now (receive_head sm e).0 e v.0 (receive_head-IsResting sm e v.0 h)

observe_head-IsResting :
    (sm : Machine) (q : List ScheduledEvent)
    → All IsEntry q
    → IsResting sm
    → IsResting (observe_head sm (first q)).0
unfolding observe_head first transition_locked
observe_head-IsResting sm [] v h = h
observe_head-IsResting sm (e ∷ es) v h = ground arith

cancel_pass-IsResting :
    (sm : Machine) (cs : List DerControl)
    → IsResting sm
    → IsResting (if is_empty cs then (sm, []) else cancel_active sm cs).0
cancel_pass-IsResting sm [] h = h
cancel_pass-IsResting sm (c ∷ cs) h = cancel_active-IsResting sm (c ∷ cs) h

module _ (p : Platform) where
  -- A pass of Tick keeps the invariant: the queue is sorted by fire time with one entry at most for
  -- each mRID, each under its event's mRID, and the machine rests in DEFAULT with nothing active,
  -- or in RECEIVED or STARTED with the control of the active mRID.
  pub compute_transitions-invariant :
      (now : ℤ) (added cancelled : List DerControl) (sm : Machine) (sched : Scheduler p)
      → IsResting sm
      → IsQueue sched.queue
      → let (sm', sched', _) = compute_transitions p now added cancelled sm sched in
        IsResting sm' × IsQueue sched'.queue
  unfolding compute_transitions next
  compute_transitions-invariant now added cancelled sm sched rests queue =
      let (sm₁, _, accepted) = accept_added sm added in
      let (sm₂, _) = if is_empty cancelled then (sm₁, []) else cancel_active sm₁ cancelled in
      let sched₁ = on_events_added p sched accepted in
      let sched₂ = on_events_cancelled p sched₁ (known_mrids cancelled) in
      let queue₁ = on_events_added-IsQueue p sched accepted queue in
      let queue₂ = on_events_cancelled-IsQueue p sched₁ (known_mrids cancelled) queue₁ in
      let queue₃ = pop_expired-IsQueue p sched₂ now queue₂ in
      let rests₂ = cancel_pass-IsResting sm₁ cancelled (accept_added-IsResting sm added rests) in
      let sm₃ = (complete now sm₂).0 in
      let expired = (pop_expired p sched₂ now).0 in
      let rests₄ =
        drain-IsResting now sm₃ expired (pop_expired_entries IsEntry p sched₂ now queue₂.entries)
          (complete-IsResting now sm₂ rests₂) in
      (observe_head-IsResting (drain now sm₃ expired).0 _ queue₃.entries rests₄, queue₃)

  pub reject_item-invariant :
      (sm : Machine) (sched : Scheduler p) (item : RejectedControl)
      → IsResting sm
      → IsQueue sched.queue
      → let (sm', sched', _) = reject_item p sm sched item in IsResting sm' × IsQueue sched'.queue
  unfolding reject_item refuse_item reject_locked transition_locked
  reject_item-invariant sm sched item rests queue =
      ground (arith, on_events_cancelled-IsQueue p sched (item.event.mrid ∷ []) queue)

  -- Reject keeps the same invariant.
  pub reject_items-invariant :
      (sm : Machine) (sched : Scheduler p) (items : List RejectedControl)
      → IsResting sm
      → IsQueue sched.queue
      → let (sm', sched', _) = reject_items p sm sched items in IsResting sm' × IsQueue sched'.queue
  unfolding reject_items
  reject_items-invariant sm sched [] rests queue = (rests, queue)
  reject_items-invariant sm sched (item ∷ items) rests queue =
      let (sm₁, sched₁, _) = reject_item p sm sched item in
      let (rests₁, queue₁) = reject_item-invariant sm sched item rests queue in
      reject_items-invariant sm₁ sched₁ items rests₁ queue₁
