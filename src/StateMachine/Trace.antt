-- ===== src/StateMachine/Trace.antt =====
-- Any sequence of calls of Tick and Reject on one machine and one scheduler
-- (internal/inverter/statemachine.go).
use ieee_2030_5_client_go.Shared.{◌≡◌, ◌≢◌, false, List, [], ◌∷◌, String, eq_iff, arith, ℤ}
use ieee_2030_5_client_go.Sep2.{DerControl, RejectedControl}
use ieee_2030_5_client_go.Scheduler.{Platform, Scheduler, new_scheduler}
use ieee_2030_5_client_go.Scheduler.Queue.{IsUnique, occurs, occurs-on_events_cancelled}
use ieee_2030_5_client_go.Scheduler.Order.{IsQueue}
use ieee_2030_5_client_go.StateMachine.{
  Machine, new_state_machine, transition_locked, reject_locked,
}
use ieee_2030_5_client_go.StateMachine.Tick.{tick, refuse_item, reject_item, reject_items, reject}
use ieee_2030_5_client_go.StateMachine.Invariant.{
  IsResting, compute_transitions-invariant, reject_item-invariant, reject_items-invariant,
  new_state_machine-IsResting,
}
use ieee_2030_5_client_go.StateMachine.Refusal.{IsRefused, compute_transitions-IsRefused}
use ieee_2030_5_client_go.StateMachine.Withdrawal.{answers, answers_any, reject_items-keep}
use ieee_2030_5_client_go.StateMachine.Stranding.{
  IsStranded, NotNamed, compute_transitions-IsStranded,
}

pub data Input : Type 0 where
  ticks : ℤ → List DerControl → List DerControl → Input
  rejects : List RejectedControl → Input

-- The input neither schedules, cancels nor answers the mRID.
abbrev pub Ignores : String → Input → Type 0
Ignores m (ticks now added cancelled) = NotNamed m added cancelled
Ignores m (rejects items) = answers_any m items ≡ false

abbrev pub IgnoresAll : String → List Input → Type 0
IgnoresAll m [] = Unit
IgnoresAll m (i ∷ is) = Ignores m i × IgnoresAll m is

module _ (p : Platform) where
  reject_item-IsStranded :
      (m : String) (sm : Machine) (sched : Scheduler p) (item : RejectedControl)
      → IsUnique sched.queue
      → answers m item ≡ false
      → IsStranded m sm sched.queue
      → let (sm', sched', _) = reject_item p sm sched item in IsStranded m sm' sched'.queue
  unfolding reject_item refuse_item reject_locked transition_locked
  reject_item-IsStranded m sm sched item unique a s = ground (
    arith,
    eq_iff sm.active_mrid item.event.mrid,
    eq_iff item.event.mrid m,
    occurs-on_events_cancelled p m sched (item.event.mrid ∷ []) unique,
  )

  unfoldable pub step : Machine × Scheduler p → Input → Machine × Scheduler p
  step (sm, sched) (ticks now added cancelled) =
      let (sm', sched', _) = tick p now added cancelled sm sched in (sm', sched')
  step (sm, sched) (rejects items) = let (sm', sched', _) = reject p sm sched items in (sm', sched')

  unfoldable pub run : Machine × Scheduler p → List Input → Machine × Scheduler p
  unfolding step
  run w [] = w
  run w (i ∷ is) = run (step w i) is

  abbrev pub Holds : Machine × Scheduler p → Type 0
  Holds (sm, sched) = IsResting sm × IsQueue sched.queue

  step-Holds : (w : Machine × Scheduler p) (i : Input) → Holds w → Holds (step w i)
  unfolding step tick reject
  step-Holds (sm, sched) (ticks now added cancelled) h =
      compute_transitions-invariant p now added cancelled sm sched h.0 h.1
  step-Holds (sm, sched) (rejects items) h = reject_items-invariant p sm sched items h.0 h.1

  run-Holds : (w : Machine × Scheduler p) (is : List Input) → Holds w → Holds (run w is)
  unfolding run
  run-Holds w [] h = h
  run-Holds w (i ∷ is) h = run-Holds (step w i) is (step-Holds w i h)

  pub new_scheduler-IsQueue : (rng : p.Rng) → IsQueue (new_scheduler p rng).queue
  unfolding new_scheduler occurs
  new_scheduler-IsQueue rng = record { sorted = tt; unique = λ m. omega arith; entries = tt }

  -- After any calls of Tick and Reject on a new machine and a new scheduler, the machine rests in
  -- DEFAULT with nothing active, or in RECEIVED or STARTED with the control of the active mRID, and
  -- the queue is sorted by fire time with one entry at most for each mRID.
  pub run-invariant :
      (rng : p.Rng) (is : List Input) → Holds (run (new_state_machine, new_scheduler p rng) is)
  run-invariant rng is = run-Holds _ is (new_state_machine-IsResting, new_scheduler-IsQueue rng)

  step-IsRefused :
      (m : String) (w : Machine × Scheduler p) (i : Input)
      → m ≢ ""
      → Holds w
      → IsRefused m w.0 w.1.queue
      → IsRefused m (step w i).0 (step w i).1.queue
  unfolding step tick reject
  step-IsRefused m (sm, sched) (ticks now added cancelled) named h r =
      compute_transitions-IsRefused p m now added cancelled sm sched named h.1.unique r
  step-IsRefused m (sm, sched) (rejects items) named h r =
      reject_items-keep p m sm sched items named h.0 h.1 r

  -- Once an mRID is refused, and neither active nor queued, no later calls of Tick and Reject make
  -- it active or queue it.
  pub run-IsRefused :
      (m : String) (w : Machine × Scheduler p) (is : List Input)
      → m ≢ ""
      → Holds w
      → IsRefused m w.0 w.1.queue
      → let (sm, sched) = run w is in IsRefused m sm sched.queue
  unfolding run
  run-IsRefused m w [] named h r = r
  run-IsRefused m w (i ∷ is) named h r =
      run-IsRefused m (step w i) is named (step-Holds w i h) (step-IsRefused m w i named h r)

  reject_items-IsStranded :
      (m : String) (sm : Machine) (sched : Scheduler p) (items : List RejectedControl)
      → Holds (sm, sched)
      → answers_any m items ≡ false
      → IsStranded m sm sched.queue
      → let (sm', sched', _) = reject_items p sm sched items in IsStranded m sm' sched'.queue
  unfolding reject_items
  reject_items-IsStranded m sm sched [] h a s = s
  reject_items-IsStranded m sm sched (item ∷ items) h a s =
      let (sm₁, sched₁, _) = reject_item p sm sched item in
      reject_items-IsStranded m sm₁ sched₁ items (reject_item-invariant p sm sched item h.0 h.1)
        (ground arith) (reject_item-IsStranded m sm sched item h.1.unique (ground arith) s)

  step-IsStranded :
      (m : String) (w : Machine × Scheduler p) (i : Input)
      → Holds w
      → Ignores m i
      → IsStranded m w.0 w.1.queue
      → IsStranded m (step w i).0 (step w i).1.queue
  unfolding step tick reject
  step-IsStranded m (sm, sched) (ticks now added cancelled) h a s =
      compute_transitions-IsStranded p m now added cancelled sm sched h.1.unique a s
  step-IsStranded m (sm, sched) (rejects items) h a s =
      reject_items-IsStranded m sm sched items h a s

  -- A machine that waits for an event which is no longer queued waits for it for ever: after any
  -- calls of Tick and Reject that neither add, cancel nor refuse that event, it still rests in
  -- RECEIVED under that mRID, so it starts no other event either.
  pub run-IsStranded :
      (m : String) (w : Machine × Scheduler p) (is : List Input)
      → Holds w
      → IgnoresAll m is
      → IsStranded m w.0 w.1.queue
      → let (sm, sched) = run w is in IsStranded m sm sched.queue
  unfolding run
  run-IsStranded m w [] h a s = s
  run-IsStranded m w (i ∷ is) h a s =
      run-IsStranded m (step w i) is (step-Holds w i h) a.1 (step-IsStranded m w i h a.0 s)
