-- ===== src/StateMachine/Refusal.antt =====
-- What a cancellation, the validator and Reject of internal/inverter/statemachine.go keep away from
-- the device: an mRID that is neither queued nor active stays so.
use ieee_2030_5_client_go.Shared.{
  ◌≡◌, refl, ◌∙◌, ◌≢◌, true, false, ◌||◌, List, [], ◌∷◌, ◌++◌, Option, none, some, String, eq_iff,
  arith, ℤ, is_empty, listed, if◌then◌else◌,
}
use ieee_2030_5_client_go.Sep2.{DerControl}
use ieee_2030_5_client_go.Scheduler.{
  ScheduledEvent, Platform, Scheduler, pop_expired, next, on_events_added, on_events_cancelled,
}
use ieee_2030_5_client_go.Scheduler.Queue.{
  occurs, IsUnique, schedules, occurs-on_events_added, occurs-on_events_cancelled,
  on_events_added-IsUnique,
}
use ieee_2030_5_client_go.StateMachine.{
  Machine, transition_locked, record_transition_locked, reject_locked,
}
use ieee_2030_5_client_go.StateMachine.Passes.{
  receive, receive_all, accept_added, known_mrids, terminate, cancel_active, complete, receive_head,
  start_head, drain, observe_head,
}
use ieee_2030_5_client_go.StateMachine.Tick.{compute_transitions}
use ieee_2030_5_client_go.StateMachine.Idle.{
  IsIdle, cancel_active-inactive, last_steps, last_steps-IsIdle,
}

-- Refused by the validator or by Reject, and neither active nor queued.
pub record IsRefused (m : String) (sm : Machine) (q : List ScheduledEvent) : Type 0 where
  pub remembered : listed m sm.rejected ≡ true
  pub idle : IsIdle m sm q

pub schedules-append :
    (m : String) (xs ys : List DerControl)
    → schedules m (xs ++ ys) ≡ schedules m xs || schedules m ys
schedules-append m [] ys = refl
schedules-append m (x ∷ xs) ys = ground (arith, schedules-append m xs ys)

receive-refused :
    (m : String) (sm : Machine) (ev : DerControl)
    → listed m sm.rejected ≡ true
    → let (sm', _, kept) = receive sm ev in
      (listed m sm'.rejected ≡ true)
      × (schedules m kept ≡ false)
      × (sm'.active_mrid ≡ sm.active_mrid)
unfolding receive reject_locked
receive-refused m sm ev h = ground (arith, eq_iff ev.mrid m)

receive_all-refused :
    (m : String) (sm : Machine) (evs : List DerControl)
    → listed m sm.rejected ≡ true
    → let (sm', _, kept) = receive_all sm evs in
      (listed m sm'.rejected ≡ true)
      × (schedules m kept ≡ false)
      × (sm'.active_mrid ≡ sm.active_mrid)
unfolding receive_all
receive_all-refused m sm [] h = (h, refl, refl)
receive_all-refused m sm (ev ∷ evs) h =
    let (sm₁, _, kept₁) = receive sm ev in
    let (_, _, kept₂) = receive_all sm₁ evs in
    ground (
      arith,
      receive-refused m sm ev h,
      receive_all-refused m sm₁ evs,
      schedules-append m kept₁ kept₂,
    )

accept_added-refused :
    (m : String) (sm : Machine) (evs : List DerControl)
    → listed m sm.rejected ≡ true
    → let (sm', _, kept) = accept_added sm evs in
      (listed m sm'.rejected ≡ true)
      × (schedules m kept ≡ false)
      × (sm'.active_mrid ≡ sm.active_mrid)
unfolding accept_added
accept_added-refused m sm [] h = ground arith
accept_added-refused m sm (ev ∷ evs) h = ground (arith, receive_all-refused m sm (ev ∷ evs) h)

-- The later steps leave the refused mRIDs alone.
cancel_pass-rejected :
    (sm : Machine) (cs : List DerControl)
    → (if is_empty cs then (sm, []) else cancel_active sm cs).0.rejected ≡ sm.rejected
unfolding cancel_active terminate transition_locked
cancel_pass-rejected sm [] = refl
cancel_pass-rejected sm (c ∷ cs) = ground arith

pub cancel_pass-inactive :
    (m : String) (sm : Machine) (cs : List DerControl)
    → m ≢ ""
    → sm.active_mrid ≢ m
    → (if is_empty cs then (sm, []) else cancel_active sm cs).0.active_mrid ≢ m
cancel_pass-inactive m sm [] named h = h
cancel_pass-inactive m sm (c ∷ cs) named h = cancel_active-inactive m sm (c ∷ cs) named h

complete-rejected : (now : ℤ) (sm : Machine) → (complete now sm).0.rejected ≡ sm.rejected
unfolding complete terminate transition_locked
complete-rejected now sm = ground arith

drain-rejected :
    (now : ℤ) (sm : Machine) (es : List ScheduledEvent) → (drain now sm es).0.rejected ≡ sm.rejected
unfolding drain receive_head start_head terminate transition_locked record_transition_locked
drain-rejected now sm [] = refl
drain-rejected now sm (e ∷ es) = ground arith

observe_head-rejected :
    (sm : Machine) (e : Option ScheduledEvent) → (observe_head sm e).0.rejected ≡ sm.rejected
unfolding observe_head transition_locked
observe_head-rejected sm none = refl
observe_head-rejected sm (some e) = ground arith

module _ (p : Platform) where
  last_steps-rejected :
      (now : ℤ) (sm : Machine) (sched : Scheduler p)
      → (last_steps p now sm sched).0.rejected ≡ sm.rejected
  last_steps-rejected now sm sched =
      let sm₁ = (complete now sm).0 in
      let (expired, sched') = pop_expired p sched now in
      observe_head-rejected (drain now sm₁ expired).0 (next p sched')
      ∙ drain-rejected now sm₁ expired
      ∙ complete-rejected now sm

  -- A pass of Tick neither schedules nor activates an mRID that was refused and was neither active
  -- nor queued, whatever it adds, and keeps it refused.
  pub compute_transitions-IsRefused :
      (m : String) (now : ℤ) (added cancelled : List DerControl) (sm : Machine)
      (sched : Scheduler p)
      → m ≢ ""
      → IsUnique sched.queue
      → IsRefused m sm sched.queue
      → let (sm', sched', _) = compute_transitions p now added cancelled sm sched in
        IsRefused m sm' sched'.queue
  unfolding compute_transitions
  compute_transitions-IsRefused m now added cancelled sm sched named unique h =
      let (sm₁, _, accepted) = accept_added sm added in
      let sched₁ = on_events_added p sched accepted in
      let sched₂ = on_events_cancelled p sched₁ (known_mrids cancelled) in
      let (sm₂, _) = if is_empty cancelled then (sm₁, []) else cancel_active sm₁ cancelled in
      let (kept, unscheduled, same) = accept_added-refused m sm added h.remembered in
      let unique₁ = on_events_added-IsUnique p sched accepted unique in
      let unqueued₁ : occurs m sched₁.queue ≡ 0 =
        occurs-on_events_added p m sched accepted unique ∙ rw unscheduled h.idle.unqueued in
      record {
        remembered =
            rw (last_steps-rejected now sm₂ sched₂, cancel_pass-rejected sm₁ cancelled) kept;
        idle = last_steps-IsIdle p m now sm₂ sched₂ named (record {
          inactive = cancel_pass-inactive m sm₁ cancelled named (rw same h.idle.inactive);
          unqueued = ground (
            arith,
            unqueued₁,
            occurs-on_events_cancelled p m sched₁ (known_mrids cancelled) unique₁,
          );
        });
      }
