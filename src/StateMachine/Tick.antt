-- ===== src/StateMachine/Tick.antt =====
-- Tick and Reject of internal/inverter/statemachine.go.
use ieee_2030_5_client_go.Shared.{
  ℕ, Bool, false, ◌&&◌, ◌||◌, List, [], ◌∷◌, ◌++◌, Option, none, some, String, str_eq,
  if◌then◌else◌, ◌==◌, is_empty, listed, ℤ,
}
use ieee_2030_5_client_go.Sep2.{DerControl, RejectedControl, status_cancelled}
use ieee_2030_5_client_go.Scheduler.{
  Platform, Scheduler, on_events_added, on_events_cancelled, pop_expired, next,
}
use ieee_2030_5_client_go.StateMachine.{
  default, is_received, is_started, Machine, Transition, Call, transition_locked, reject_locked,
  fire_transitions,
}
use ieee_2030_5_client_go.StateMachine.Passes.{
  accept_added, known_mrids, cancel_active, complete, drain, observe_head,
}

abbrev pub is_cancelled : Option ℕ → Bool
is_cancelled none = false
is_cancelled (some st) = st == status_cancelled

module _ (p : Platform) where
  -- computeTransitionsLocked.
  unfoldable pub compute_transitions :
      ℤ
      → List DerControl
      → List DerControl
      → Machine
      → Scheduler p
      → Machine × Scheduler p × List Transition
  compute_transitions now added cancelled sm sched =
      let (sm₁, ts₁, accepted) = accept_added sm added in
      let sched₁ = on_events_added p sched accepted in
      let (sm₂, ts₂) = if is_empty cancelled then (sm₁, []) else cancel_active sm₁ cancelled in
      let sched₂ = on_events_cancelled p sched₁ (known_mrids cancelled) in
      let (sm₃, ts₃) = complete now sm₂ in
      let (expired, sched₃) = pop_expired p sched₂ now in
      let (sm₄, ts₄) = drain now sm₃ expired in
      let (sm₅, ts₅) = observe_head sm₄ (next p sched₃) in
      (sm₅, sched₃, ts₁ ++ (ts₂ ++ (ts₃ ++ (ts₄ ++ ts₅))))

  -- Tick: the transitions of one pass, then their hooks.
  unfoldable pub tick :
      ℤ
      → List DerControl
      → List DerControl
      → Machine
      → Scheduler p
      → Machine × Scheduler p × List Call
  tick now added cancelled sm sched =
      let (sm', sched', pending) = compute_transitions now added cancelled sm sched in
      (sm', sched', fire_transitions pending)

  -- Reject on an item that is answered: refused, taken off the queue, and withdrawn if active.
  unfoldable pub refuse_item :
      Machine → Scheduler p → DerControl → String → Machine × Scheduler p × List Transition
  refuse_item sm sched evt err =
      let (sm₁, t₁) = reject_locked sm evt err in
      let sched₁ = on_events_cancelled p sched (evt.mrid ∷ []) in
      let (sm₂, t₂) = transition_locked sm₁ default "" none in
      if str_eq sm₁.active_mrid evt.mrid && (is_received sm₁.state || is_started sm₁.state)
      then (sm₂, sched₁, t₁ ∷ t₂ ∷ [])
      else (sm₁, sched₁, t₁ ∷ [])

  -- One round of the loop of Reject, with its three ways to skip the item.
  unfoldable pub reject_item :
      Machine → Scheduler p → RejectedControl → Machine × Scheduler p × List Transition
  unfolding refuse_item
  reject_item sm sched item =
      let evt = item.event in
      if str_eq evt.mrid "" || listed evt.mrid sm.rejected || is_cancelled evt.status
      then (sm, sched, [])
      else refuse_item sm sched evt item.err

  unfoldable pub reject_items :
      Machine → Scheduler p → List RejectedControl → Machine × Scheduler p × List Transition
  reject_items sm sched [] = (sm, sched, [])
  reject_items sm sched (item ∷ items) =
      let (sm₁, sched₁, ts₁) = reject_item sm sched item in
      let (sm₂, sched₂, ts₂) = reject_items sm₁ sched₁ items in (sm₂, sched₂, ts₁ ++ ts₂)

  -- Reject.
  unfoldable pub reject :
      Machine → Scheduler p → List RejectedControl → Machine × Scheduler p × List Call
  reject sm sched items =
      let (sm', sched', pending) = reject_items sm sched items in
      (sm', sched', fire_transitions pending)
