-- ===== src/StateMachine/Stranding.antt =====
-- A machine of internal/inverter/statemachine.go that waits in RECEIVED for an event which is no
-- longer queued.
use ieee_2030_5_client_go.Shared.{
  ◌≡◌, refl, ◌∙◌, false, ◌||◌, List, [], ◌∷◌, ◌++◌, Option, none, some, String, eq_iff, arith, ℤ,
  is_empty, listed, if◌then◌else◌,
}
use ieee_2030_5_client_go.Sep2.{DerControl}
use ieee_2030_5_client_go.Scheduler.{
  ScheduledEvent, Platform, Scheduler, pop_expired, next, split_expired, on_events_added,
  on_events_cancelled,
}
use ieee_2030_5_client_go.Scheduler.Queue.{
  occurs, IsUnique, schedules, occurs-on_events_added, occurs-on_events_cancelled,
  on_events_added-IsUnique,
}
use ieee_2030_5_client_go.StateMachine.{event_received, Machine, reject_locked}
use ieee_2030_5_client_go.StateMachine.Passes.{
  receive, receive_all, accept_added, known_mrids, last_with, cancel_active, complete, receive_head,
  start_head, drain, observe_head,
}
use ieee_2030_5_client_go.StateMachine.Tick.{compute_transitions}
use ieee_2030_5_client_go.StateMachine.Idle.{occurs-split_expired}

-- The machine waits for an event that the queue no longer holds.
pub record IsStranded (m : String) (sm : Machine) (q : List ScheduledEvent) : Type 0 where
  pub waiting : sm.state ≡ event_received
  pub awaited : sm.active_mrid ≡ m
  pub gone : occurs m q ≡ 0

-- What receipt leaves alone, and the events it lets through.
receive-same :
    (m : String) (sm : Machine) (ev : DerControl)
    → let (sm', _, kept) = receive sm ev in
      (sm'.state ≡ sm.state)
      × (sm'.active_mrid ≡ sm.active_mrid)
      × (schedules m (ev ∷ []) ≡ false → schedules m kept ≡ false)
unfolding receive reject_locked
receive-same m sm ev = (ground arith, ground arith, λ h. ground arith)

schedules-append :
    (m : String) (xs ys : List DerControl)
    → schedules m (xs ++ ys) ≡ schedules m xs || schedules m ys
schedules-append m [] ys = refl
schedules-append m (x ∷ xs) ys = ground (arith, schedules-append m xs ys)

receive_all-same :
    (m : String) (sm : Machine) (evs : List DerControl)
    → schedules m evs ≡ false
    → let (sm', _, kept) = receive_all sm evs in
      (sm'.state ≡ sm.state) × (sm'.active_mrid ≡ sm.active_mrid) × (schedules m kept ≡ false)
unfolding receive_all
receive_all-same m sm [] h = (refl, refl, refl)
receive_all-same m sm (ev ∷ evs) h =
    let (sm₁, _, kept₁) = receive sm ev in
    let kept₂ = (receive_all sm₁ evs).2 in
    let same = receive-same m sm ev in
    ground (
      arith,
      same.0,
      same.1,
      same.2 (ground arith),
      receive_all-same m sm₁ evs,
      schedules-append m kept₁ kept₂,
    )

accept_added-same :
    (m : String) (sm : Machine) (evs : List DerControl)
    → schedules m evs ≡ false
    → let (sm', _, kept) = accept_added sm evs in
      (sm'.state ≡ sm.state) × (sm'.active_mrid ≡ sm.active_mrid) × (schedules m kept ≡ false)
unfolding accept_added
accept_added-same m sm evs h = ground (arith, receive_all-same m sm evs h)

last_with-none :
    (m : String) (cs : List DerControl) → listed m (known_mrids cs) ≡ false → last_with m cs ≡ none
unfolding known_mrids last_with
last_with-none m [] h = refl
last_with-none m (c ∷ cs) h = ground (arith, last_with-none m cs, eq_iff c.mrid m)

cancel_pass-same :
    (m : String) (sm : Machine) (cs : List DerControl)
    → sm.active_mrid ≡ m
    → listed m (known_mrids cs) ≡ false
    → (if is_empty cs then (sm, []) else cancel_active sm cs).0 ≡ sm
unfolding cancel_active
cancel_pass-same m sm [] e h = refl
cancel_pass-same m sm (c ∷ cs) e h = ground (arith, last_with-none m (c ∷ cs) h)

complete-waiting : (now : ℤ) (sm : Machine) → sm.state ≡ event_received → (complete now sm).0 ≡ sm
unfolding complete
complete-waiting now sm e = ground arith

drain-waiting :
    (m : String) (now : ℤ) (sm : Machine) (es : List ScheduledEvent)
    → sm.state ≡ event_received
    → sm.active_mrid ≡ m
    → occurs m es ≡ 0
    → (drain now sm es).0 ≡ sm
unfolding drain receive_head start_head occurs
drain-waiting m now sm [] e a o = refl
drain-waiting m now sm (b ∷ es) e a o =
    ground (arith, eq_iff sm.active_mrid b.mrid, eq_iff b.mrid m)

observe_head-waiting :
    (sm : Machine) (e : Option ScheduledEvent)
    → sm.state ≡ event_received
    → (observe_head sm e).0 ≡ sm
unfolding observe_head
observe_head-waiting sm none e = refl
observe_head-waiting sm (some b) e = ground arith

last_steps-waiting :
    (m : String) (now : ℤ) (sm : Machine) (due : List ScheduledEvent) (e : Option ScheduledEvent)
    → sm.state ≡ event_received
    → sm.active_mrid ≡ m
    → occurs m due ≡ 0
    → (observe_head (drain now (complete now sm).0 due).0 e).0 ≡ sm
last_steps-waiting m now sm due e w a o =
    rw (complete-waiting now sm w, drain-waiting m now sm due w a o) (observe_head-waiting sm e w)

abbrev pub NotNamed : String → List DerControl → List DerControl → Type 0
NotNamed m added cancelled =
    (schedules m added ≡ false) × (listed m (known_mrids cancelled) ≡ false)

module _ (p : Platform) where
  -- A machine that waits for an event which the queue no longer holds still waits for it after a
  -- pass of Tick that neither adds nor cancels that event, at any time and whatever else is due.
  pub compute_transitions-IsStranded :
      (m : String) (now : ℤ) (added cancelled : List DerControl) (sm : Machine)
      (sched : Scheduler p)
      → IsUnique sched.queue
      → NotNamed m added cancelled
      → IsStranded m sm sched.queue
      → let (sm', sched', _) = compute_transitions p now added cancelled sm sched in
        IsStranded m sm' sched'.queue
  unfolding compute_transitions pop_expired
  compute_transitions-IsStranded m now added cancelled sm sched unique unnamed h =
      let (sm₁, _, accepted) = accept_added sm added in
      let (state₁, active₁, kept) = accept_added-same m sm added unnamed.0 in
      let sched₁ = on_events_added p sched accepted in
      let sched₂ = on_events_cancelled p sched₁ (known_mrids cancelled) in
      let unique₁ = on_events_added-IsUnique p sched accepted unique in
      let gone₂ : occurs m sched₂.queue ≡ 0 = ground (
        arith,
        occurs-on_events_added p m sched accepted unique,
        occurs-on_events_cancelled p m sched₁ (known_mrids cancelled) unique₁,
      ) in
      let (due, rest) = split_expired now sched₂.queue in
      let (o₁, o₂) = occurs-split_expired m now sched₂.queue gone₂ in
      let waiting₁ = state₁ ∙ h.waiting in
      let awaited₁ = active₁ ∙ h.awaited in
      let same₂ = cancel_pass-same m sm₁ cancelled awaited₁ unnamed.1 in
      let head = next p (record sched₂ { queue = rest }) in
      let same₅ = last_steps-waiting m now sm₁ due head waiting₁ awaited₁ o₁ in
      record {
        waiting = rw (same₂, same₅) waiting₁;
        awaited = rw (same₂, same₅) awaited₁;
        gone = o₂;
      }
