-- ===== src/StateMachine/Idle.antt =====
-- Cancellation in internal/inverter/statemachine.go, and an mRID that is neither active nor queued
-- in the last steps of a pass.
use ieee_2030_5_client_go.Shared.{
  ◌≡◌, refl, ◌∙◌, ◌≢◌, ap, true, List, [], ◌∷◌, String, eq_iff, arith, ℤ, is_some, listed,
}
use ieee_2030_5_client_go.Sep2.{DerControl}
use ieee_2030_5_client_go.Scheduler.{
  ScheduledEvent, Platform, Scheduler, pop_expired, next, first, split_expired, on_events_added,
  on_events_cancelled,
}
use ieee_2030_5_client_go.Scheduler.Queue.{
  occurs, IsUnique, occurs-append, occurs-on_events_cancelled, on_events_added-IsUnique,
}
use ieee_2030_5_client_go.Scheduler.Order.{split_expired-append}
use ieee_2030_5_client_go.StateMachine.{Machine, transition_locked, record_transition_locked}
use ieee_2030_5_client_go.StateMachine.Passes.{
  accept_added, known_mrids, last_with, terminate, cancel_active, complete, receive_head,
  start_head, drain, observe_head,
}
use ieee_2030_5_client_go.StateMachine.Tick.{compute_transitions}
use ieee_2030_5_client_go.StateMachine.Invariant.{IsResting, accept_added-IsResting}

-- Neither active nor queued.
pub record IsIdle (m : String) (sm : Machine) (q : List ScheduledEvent) : Type 0 where
  pub inactive : sm.active_mrid ≢ m
  pub unqueued : occurs m q ≡ 0

complete-inactive :
    (m : String) (now : ℤ) (sm : Machine)
    → m ≢ ""
    → sm.active_mrid ≢ m
    → (complete now sm).0.active_mrid ≢ m
unfolding complete terminate transition_locked
complete-inactive m now sm named h = ground arith

pub drain-inactive :
    (m : String) (now : ℤ) (sm : Machine) (es : List ScheduledEvent)
    → m ≢ ""
    → sm.active_mrid ≢ m
    → occurs m es ≡ 0
    → (drain now sm es).0.active_mrid ≢ m
unfolding drain receive_head start_head terminate transition_locked record_transition_locked occurs
drain-inactive m now sm [] named h o = h
drain-inactive m now sm (e ∷ es) named h o = ground (arith, eq_iff e.mrid m)

pub observe_head-inactive :
    (m : String) (sm : Machine) (q : List ScheduledEvent)
    → sm.active_mrid ≢ m
    → occurs m q ≡ 0
    → (observe_head sm (first q)).0.active_mrid ≢ m
unfolding observe_head first transition_locked occurs
observe_head-inactive m sm [] h o = h
observe_head-inactive m sm (e ∷ es) h o = ground (arith, eq_iff e.mrid m)

pub occurs-split_expired :
    (m : String) (now : ℤ) (q : List ScheduledEvent)
    → occurs m q ≡ 0
    → (occurs m (split_expired now q).0 ≡ 0) × (occurs m (split_expired now q).1 ≡ 0)
occurs-split_expired m now q o =
    let (due, rest) = split_expired now q in
    omega (arith, ap (occurs m) (split_expired-append now q), occurs-append m due rest)

last_with-listed :
    (m : String) (cs : List DerControl)
    → listed m (known_mrids cs) ≡ true
    → is_some (last_with m cs) ≡ true
unfolding known_mrids last_with
last_with-listed m [] h = cc
last_with-listed m (c ∷ cs) h = ground (arith, last_with-listed m cs, eq_iff c.mrid m)

cancel_active-listed :
    (m : String) (sm : Machine) (cs : List DerControl)
    → m ≢ ""
    → IsResting sm
    → listed m (known_mrids cs) ≡ true
    → (cancel_active sm cs).0.active_mrid ≢ m
unfolding cancel_active terminate transition_locked
cancel_active-listed m sm cs named rests h =
    ground (arith, last_with-listed sm.active_mrid cs, eq_iff sm.active_mrid "")

pub cancel_active-inactive :
    (m : String) (sm : Machine) (cs : List DerControl)
    → m ≢ ""
    → sm.active_mrid ≢ m
    → (cancel_active sm cs).0.active_mrid ≢ m
unfolding cancel_active terminate transition_locked
cancel_active-inactive m sm cs named h = ground arith

module _ (p : Platform) where
  -- Steps 3 to 5 of a pass start no event that is idle.
  abbrev pub last_steps : ℤ → Machine → Scheduler p → Machine × Scheduler p
  last_steps now sm sched =
      let sm₁ = (complete now sm).0 in
      let (expired, sched') = pop_expired p sched now in
      ((observe_head (drain now sm₁ expired).0 (next p sched')).0, sched')

  pub last_steps-IsIdle :
      (m : String) (now : ℤ) (sm : Machine) (sched : Scheduler p)
      → m ≢ ""
      → IsIdle m sm sched.queue
      → let (sm', sched') = last_steps now sm sched in IsIdle m sm' sched'.queue
  unfolding pop_expired next
  last_steps-IsIdle m now sm sched named h =
      let (o₁, o₂) = occurs-split_expired m now sched.queue h.unqueued in
      let (due, rest) = split_expired now sched.queue in
      let sm₁ = (complete now sm).0 in
      record {
        inactive =
            observe_head-inactive m (drain now sm₁ due).0 rest
              (drain-inactive m now sm₁ due named (complete-inactive m now sm named h.inactive) o₁)
              o₂;
        unqueued = o₂;
      }

  -- A pass of Tick that forwards the cancellation of a named mRID leaves that mRID neither active
  -- nor queued, also where the same pass adds an event of that mRID.
  pub cancelled-IsIdle :
      (m : String) (now : ℤ) (added cancelled : List DerControl) (sm : Machine)
      (sched : Scheduler p)
      → m ≢ ""
      → IsResting sm
      → IsUnique sched.queue
      → listed m (known_mrids cancelled) ≡ true
      → let (sm', sched', _) = compute_transitions p now added cancelled sm sched in
        IsIdle m sm' sched'.queue
  unfolding compute_transitions
  cancelled-IsIdle m now added [] sm sched named rests unique h = absurd (unfold known_mrids in cc)
  cancelled-IsIdle m now added (c ∷ cs) sm sched named rests unique h =
      let (sm₁, _, accepted) = accept_added sm added in
      let sched₁ = on_events_added p sched accepted in
      let sched₂ = on_events_cancelled p sched₁ (known_mrids (c ∷ cs)) in
      let unique₁ = on_events_added-IsUnique p sched accepted unique in
      last_steps-IsIdle m now (cancel_active sm₁ (c ∷ cs)).0 sched₂ named (record {
        inactive =
            cancel_active-listed m sm₁ (c ∷ cs) named (accept_added-IsResting sm added rests) h;
        unqueued = occurs-on_events_cancelled p m sched₁ (known_mrids (c ∷ cs)) unique₁ ∙ rw h refl;
      })
