-- ===== src/StateMachine/Kept.antt =====
-- internal/inverter/statemachine.go: an mRID that is neither active nor queued stays so, unless an
-- event of it is added.
use ieee_2030_5_client_go.Shared.{
  ◌≡◌, refl, ◌∙◌, ◌≢◌, false, List, [], ◌∷◌, String, eq_iff, arith, ℤ, is_empty, if◌then◌else◌,
}
use ieee_2030_5_client_go.Sep2.{DerControl, RejectedControl}
use ieee_2030_5_client_go.Scheduler.{Platform, Scheduler, on_events_added, on_events_cancelled}
use ieee_2030_5_client_go.Scheduler.Order.{IsQueue}
use ieee_2030_5_client_go.Scheduler.Queue.{
  occurs, IsUnique, schedules, occurs-on_events_added, occurs-on_events_cancelled,
  on_events_added-IsUnique,
}
use ieee_2030_5_client_go.StateMachine.{Machine, transition_locked, reject_locked}
use ieee_2030_5_client_go.StateMachine.Passes.{
  receive, receive_all, accept_added, known_mrids, cancel_active,
}
use ieee_2030_5_client_go.StateMachine.Tick.{
  compute_transitions, refuse_item, reject_item, reject_items,
}
use ieee_2030_5_client_go.StateMachine.Idle.{IsIdle, last_steps-IsIdle}
use ieee_2030_5_client_go.StateMachine.Invariant.{IsResting, reject_item-invariant}
use ieee_2030_5_client_go.StateMachine.Refusal.{schedules-append, cancel_pass-inactive}

receive-unscheduled :
    (m : String) (sm : Machine) (ev : DerControl)
    → schedules m (ev ∷ []) ≡ false
    → let (sm', _, kept) = receive sm ev in
      (schedules m kept ≡ false) × (sm'.active_mrid ≡ sm.active_mrid)
unfolding receive reject_locked
receive-unscheduled m sm ev h = ground arith

receive_all-unscheduled :
    (m : String) (sm : Machine) (evs : List DerControl)
    → schedules m evs ≡ false
    → let (sm', _, kept) = receive_all sm evs in
      (schedules m kept ≡ false) × (sm'.active_mrid ≡ sm.active_mrid)
unfolding receive_all
receive_all-unscheduled m sm [] h = (refl, refl)
receive_all-unscheduled m sm (ev ∷ evs) h =
    let (sm₁, _, kept₁) = receive sm ev in
    let (_, _, kept₂) = receive_all sm₁ evs in
    ground (
      arith,
      receive-unscheduled m sm ev,
      receive_all-unscheduled m sm₁ evs,
      schedules-append m kept₁ kept₂,
    )

pub accept_added-unscheduled :
    (m : String) (sm : Machine) (evs : List DerControl)
    → schedules m evs ≡ false
    → let (sm', _, kept) = accept_added sm evs in
      (schedules m kept ≡ false) × (sm'.active_mrid ≡ sm.active_mrid)
unfolding accept_added
accept_added-unscheduled m sm evs h = ground (arith, receive_all-unscheduled m sm evs h)

module _ (p : Platform) where
  -- A pass of Tick keeps an mRID idle when it adds no event of that mRID with an interval.
  pub compute_transitions-IsIdle :
      (m : String) (now : ℤ) (added cancelled : List DerControl) (sm : Machine)
      (sched : Scheduler p)
      → m ≢ ""
      → IsUnique sched.queue
      → schedules m added ≡ false
      → IsIdle m sm sched.queue
      → let (sm', sched', _) = compute_transitions p now added cancelled sm sched in
        IsIdle m sm' sched'.queue
  unfolding compute_transitions
  compute_transitions-IsIdle m now added cancelled sm sched named unique absent h =
      let (sm₁, _, accepted) = accept_added sm added in
      let sched₁ = on_events_added p sched accepted in
      let sched₂ = on_events_cancelled p sched₁ (known_mrids cancelled) in
      let (sm₂, _) = if is_empty cancelled then (sm₁, []) else cancel_active sm₁ cancelled in
      let (unscheduled, same) = accept_added-unscheduled m sm added absent in
      let unique₁ = on_events_added-IsUnique p sched accepted unique in
      let unqueued₁ : occurs m sched₁.queue ≡ 0 =
        occurs-on_events_added p m sched accepted unique ∙ rw unscheduled h.unqueued in
      last_steps-IsIdle p m now sm₂ sched₂ named (record {
        inactive = cancel_pass-inactive m sm₁ cancelled named (rw same h.inactive);
        unqueued = ground (
          arith,
          unqueued₁,
          occurs-on_events_cancelled p m sched₁ (known_mrids cancelled) unique₁,
        );
      })

  reject_item-IsIdle :
      (m : String) (sm : Machine) (sched : Scheduler p) (item : RejectedControl)
      → m ≢ ""
      → IsUnique sched.queue
      → IsIdle m sm sched.queue
      → let (sm', sched', _) = reject_item p sm sched item in IsIdle m sm' sched'.queue
  unfolding reject_item refuse_item reject_locked transition_locked
  reject_item-IsIdle m sm sched item named unique h = ground (
    arith,
    eq_iff sm.active_mrid item.event.mrid,
    occurs-on_events_cancelled p m sched (item.event.mrid ∷ []) unique,
  )

  -- Reject keeps every idle mRID idle.
  pub reject_items-IsIdle :
      (m : String) (sm : Machine) (sched : Scheduler p) (items : List RejectedControl)
      → m ≢ ""
      → IsResting sm
      → IsQueue sched.queue
      → IsIdle m sm sched.queue
      → let (sm', sched', _) = reject_items p sm sched items in IsIdle m sm' sched'.queue
  unfolding reject_items
  reject_items-IsIdle m sm sched [] named rests queue h = h
  reject_items-IsIdle m sm sched (item ∷ items) named rests queue h =
      let (sm₁, sched₁, _) = reject_item p sm sched item in
      let (rests₁, queue₁) = reject_item-invariant p sm sched item rests queue in
      reject_items-IsIdle m sm₁ sched₁ items named rests₁ queue₁
        (reject_item-IsIdle m sm sched item named queue.unique h)
