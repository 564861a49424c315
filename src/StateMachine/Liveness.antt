-- ===== src/StateMachine/Liveness.antt =====
-- An event starts when it is due and ends when it expires: the passes of Tick in
-- internal/inverter/statemachine.go with nothing added and nothing cancelled.
use mathlib.Core.List.{append-nil, map-append}
use ieee_2030_5_client_go.Shared.{
  ◌≡◌, refl, ◌≢◌, ◌⊎◌, ◌∙◌, ap, sym, true, false, List, [], ◌∷◌, ◌++◌, map, Option, none, some,
  le→ltb_ℤ, lt→ltb_ℤ, ◌<ℤ◌, String, eq_iff, arith, ℤ, ◌≤ℤ◌, inl, inr, if◌then◌else◌,
}
use ieee_2030_5_client_go.Sep2.{DerControl}
use ieee_2030_5_client_go.Scheduler.{ScheduledEvent, Platform, Scheduler, first, split_expired}
use ieee_2030_5_client_go.Scheduler.Queue.{occurs}
use ieee_2030_5_client_go.StateMachine.{
  EventState, default, event_received, event_started, event_completed, Machine, Snapshot,
  Transition, current, is_default, is_started, is_zero, transition_locked, record_transition_locked,
}
use ieee_2030_5_client_go.StateMachine.Passes.{
  terminate, complete, receive_head, start_head, drain, observe_head, has_expired,
}
use ieee_2030_5_client_go.StateMachine.Tick.{compute_transitions}
use ieee_2030_5_client_go.StateMachine.Quiet.{late_steps, quiet_pass}
use ieee_2030_5_client_go.StateMachine.Collision.{split_expired_due_head}
use ieee_2030_5_client_go.StateMachine.Idle.{
  IsIdle, drain-inactive, observe_head-inactive, occurs-split_expired,
}

-- In DEFAULT, or waiting for that event.
abbrev pub IsReady : Machine → ScheduledEvent → Type 0
IsReady sm e = (sm.state ≡ default) ⊎ ((sm.state ≡ event_received) × (sm.active_mrid ≡ e.mrid))

abbrev pub targets : List Transition → List EventState
targets = map (λ t. t.next)

abbrev Starts : Machine → ScheduledEvent → Machine × List Transition → Type 0
Starts sm e (sm', ts) =
    (current sm'
      ≡ record { state = event_started; active_mrid = e.mrid; active_der_control = some e.source })
    × (sm'.active_expire_at ≡ e.expire_at)
    × (targets ts
        ≡ (if is_default sm.state then event_received ∷ event_started ∷ [] else event_started ∷ []))

-- Outside STARTED step 3 does nothing.
complete_idle : (now : ℤ) (sm : Machine) → is_started sm.state ≡ false → complete now sm ≡ (sm, [])
unfolding complete
complete_idle now sm h = ground arith

observe_started :
    (sm : Machine) (o : Option ScheduledEvent)
    → sm.state ≡ event_started
    → observe_head sm o ≡ (sm, [])
unfolding observe_head
observe_started sm none h = refl
observe_started sm (some e) h = ground arith

drain-Starts :
    (now : ℤ) (sm : Machine) (e : ScheduledEvent) (due : List ScheduledEvent)
    → IsReady sm e
    → has_expired now e.expire_at ≡ false
    → Starts sm e (drain now sm (e ∷ due))
unfolding drain receive_head start_head transition_locked record_transition_locked current
drain-Starts now sm e due (inl d) live = ground (arith, eq_iff e.mrid e.mrid)
drain-Starts now sm e due (inr w) live = ground (arith, eq_iff sm.active_mrid e.mrid)

not_started : (sm : Machine) (e : ScheduledEvent) → IsReady sm e → is_started sm.state ≡ false
not_started sm e h = ground arith

late_steps-drain :
    (now : ℤ) (sm : Machine) (due rest : List ScheduledEvent)
    → is_started sm.state ≡ false
    → (drain now sm due).0.state ≡ event_started
    → late_steps now sm due rest ≡ drain now sm due
unfolding late_steps
late_steps-drain now sm due rest idle started = rw (
  complete_idle now sm idle,
  observe_started (drain now sm due).0 (first rest) started,
  append-nil,
)

-- Step 3 on an event whose expiry has come.
complete-expired :
    (now : ℤ) (sm : Machine)
    → sm.state ≡ event_started
    → has_expired now sm.active_expire_at ≡ true
    → let (sm', ts) = complete now sm in
      (sm'.active_mrid ≡ "")
      × (targets ts ≡ event_completed ∷ default ∷ [])
      × (map (λ t. t.evt) ts ≡ sm.active_der_ctrl ∷ none ∷ [])
unfolding complete terminate transition_locked
complete-expired now sm s h = ground arith

has_expired_at :
    (now expire_at : ℤ)
    → is_zero expire_at ≡ false
    → expire_at ≤ℤ now
    → has_expired now expire_at ≡ true
unfolding has_expired
has_expired_at now expire_at z h = ground (arith, le→ltb_ℤ now expire_at h)

has_expired_before : (now expire_at : ℤ) → now <ℤ expire_at → has_expired now expire_at ≡ false
unfolding has_expired
has_expired_before now expire_at h = ground (arith, lt→ltb_ℤ now expire_at h)

module _ (p : Platform) where
  -- If the head of the queue is due and not yet expired, and the machine is in DEFAULT or waits for
  -- that very event, a pass of Tick with nothing added or cancelled starts it: Current reports it as
  -- started with its control, its expiry is in force, and the transitions recorded lead to
  -- EVENT_STARTED, through EVENT_RECEIVED if the machine was in DEFAULT.
  pub compute_transitions_starts :
      (now : ℤ) (sm : Machine) (e : ScheduledEvent) (rest : List ScheduledEvent) (rng : p.Rng)
      → IsReady sm e
      → e.fire_at ≤ℤ now
      → now <ℤ e.expire_at
      → let sched : Scheduler p = record { queue = e ∷ rest; rng = rng } in
        let (sm', _, ts) = compute_transitions p now [] [] sm sched in
        (current sm' ≡ record {
          state = event_started;
          active_mrid = e.mrid;
          active_der_control = some e.source;
        })
        × (sm'.active_expire_at ≡ e.expire_at)
        × (targets ts ≡ (
            if is_default sm.state
            then event_received ∷ event_started ∷ []
            else event_started ∷ []))
  compute_transitions_starts now sm e rest rng ready due live =
      let sched : Scheduler p = record { queue = e ∷ rest; rng = rng } in
      let (early, later) = split_expired now rest in
      let started = drain-Starts now sm e early ready (has_expired_before now e.expire_at live) in
      let same =
        late_steps-drain now sm (e ∷ early) later (not_started sm e ready)
          (unfold current in ap (λ (s : Snapshot). s.state) started.0) in
      rw (quiet_pass p now sm sched, split_expired_due_head now e rest due, same) started

  -- If the event in force has an expiry, has reached it and is not queued again, a pass of Tick with nothing
  -- added or cancelled first records its completion, with its control, and the return to DEFAULT,
  -- and leaves its mRID neither active nor queued.
  pub compute_transitions_completes :
      (m : String) (now : ℤ) (sm : Machine) (sched : Scheduler p)
      → m ≢ ""
      → sm.state ≡ event_started
      → sm.active_mrid ≡ m
      → is_zero sm.active_expire_at ≡ false
      → sm.active_expire_at ≤ℤ now
      → occurs m sched.queue ≡ 0
      → let (sm', sched', ts) = compute_transitions p now [] [] sm sched in
        ((us : List Transition) × (targets ts ≡ event_completed ∷ default ∷ targets us)
          × (map (λ t. t.evt) ts ≡ sm.active_der_ctrl ∷ none ∷ map (λ t. t.evt) us))
        × IsIdle m sm' sched'.queue
  compute_transitions_completes m now sm sched named s a z h o =
      let (due, rest) = split_expired now sched.queue in
      let (o₁, o₂) = occurs-split_expired m now sched.queue o in
      let (sm₁, ts₁) = complete now sm in
      let (sm₂, ts₂) = drain now sm₁ due in
      let us = ts₂ ++ (observe_head sm₂ (first rest)).1 in
      let (cleared, recorded, carried) =
        complete-expired now sm s (has_expired_at now sm.active_expire_at z h) in
      let inactive₂ = drain-inactive m now sm₁ due named (λ e. named (sym e ∙ cleared)) o₁ in
      rw (quiet_pass p now sm sched) (
        unfold late_steps in
        (
          (
            us,
            map-append _ ts₁ us ∙ ap (λ (l : List EventState). l ++ targets us) recorded,
            map-append _ ts₁ us
                ∙ ap (λ (l : List (Option DerControl)). l ++ map (λ t. t.evt) us) carried,
          ),
          record { inactive = observe_head-inactive m sm₂ rest inactive₂ o₂; unqueued = o₂ },
        ))
