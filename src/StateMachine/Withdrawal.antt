-- ===== src/StateMachine/Withdrawal.antt =====
-- Reject of internal/inverter/statemachine.go: what it takes out of the queue and out of force.
use ieee_2030_5_client_go.Shared.{
  ◌≡◌, ◌≢◌, Bool, true, false, not, ◌&&◌, ◌||◌, List, [], ◌∷◌, String, str_eq, eq_iff, arith,
  listed, Bool-cases, inl, inr,
}
use ieee_2030_5_client_go.Sep2.{RejectedControl}
use ieee_2030_5_client_go.Scheduler.{Platform, Scheduler}
use ieee_2030_5_client_go.Scheduler.Queue.{IsUnique, occurs-on_events_cancelled}
use ieee_2030_5_client_go.Scheduler.Order.{IsQueue}
use ieee_2030_5_client_go.StateMachine.{Machine, transition_locked, reject_locked}
use ieee_2030_5_client_go.StateMachine.Tick.{is_cancelled, refuse_item, reject_item, reject_items}
use ieee_2030_5_client_go.StateMachine.Invariant.{IsResting, reject_item-invariant}
use ieee_2030_5_client_go.StateMachine.Refusal.{IsRefused}

-- The item is of that mRID and the server has not cancelled it.
abbrev pub answers : String → RejectedControl → Bool
answers m item = str_eq item.event.mrid m && not (is_cancelled item.event.status)

abbrev pub answers_any : String → List RejectedControl → Bool
answers_any m [] = false
answers_any m (item ∷ items) = answers m item || answers_any m items

module _ (p : Platform) where
  reject_item-IsRefused :
      (m : String) (sm : Machine) (sched : Scheduler p) (item : RejectedControl)
      → m ≢ ""
      → IsUnique sched.queue
      → IsRefused m sm sched.queue
      → let (sm', sched', _) = reject_item p sm sched item in IsRefused m sm' sched'.queue
  unfolding reject_item refuse_item reject_locked transition_locked
  reject_item-IsRefused m sm sched item named unique h =
      ground
        (arith, h.idle.inactive, occurs-on_events_cancelled p m sched (item.event.mrid ∷ []) unique)

  reject_item-answered :
      (m : String) (sm : Machine) (sched : Scheduler p) (item : RejectedControl)
      → m ≢ ""
      → IsResting sm
      → IsUnique sched.queue
      → listed m sm.rejected ≡ false
      → answers m item ≡ true
      → let (sm', sched', _) = reject_item p sm sched item in IsRefused m sm' sched'.queue
  unfolding reject_item refuse_item reject_locked transition_locked
  reject_item-answered m sm sched item named rests unique new h = ground (
    arith,
    eq_iff item.event.mrid m,
    eq_iff item.event.mrid "",
    eq_iff sm.active_mrid item.event.mrid,
    occurs-on_events_cancelled p m sched (item.event.mrid ∷ []) unique,
  )

  reject_item-other :
      (m : String) (sm : Machine) (sched : Scheduler p) (item : RejectedControl)
      → listed m sm.rejected ≡ false
      → answers m item ≡ false
      → listed m (reject_item p sm sched item).0.rejected ≡ false
  unfolding reject_item refuse_item reject_locked transition_locked
  reject_item-other m sm sched item new h = ground (arith, eq_iff item.event.mrid m)

  pub reject_items-keep :
      (m : String) (sm : Machine) (sched : Scheduler p) (items : List RejectedControl)
      → m ≢ ""
      → IsResting sm
      → IsQueue sched.queue
      → IsRefused m sm sched.queue
      → let (sm', sched', _) = reject_items p sm sched items in IsRefused m sm' sched'.queue
  unfolding reject_items
  reject_items-keep m sm sched [] named rests queue h = h
  reject_items-keep m sm sched (item ∷ items) named rests queue h =
      let (sm₁, sched₁, _) = reject_item p sm sched item in
      let (rests₁, queue₁) = reject_item-invariant p sm sched item rests queue in
      reject_items-keep m sm₁ sched₁ items named rests₁ queue₁
        (reject_item-IsRefused m sm sched item named queue.unique h)

  -- After Reject on a list that holds an item of a named mRID which the server has not cancelled and
  -- which was not refused before, that mRID is refused, and neither active nor queued.
  pub reject_items-IsRefused :
      (m : String) (sm : Machine) (sched : Scheduler p) (items : List RejectedControl)
      → m ≢ ""
      → IsResting sm
      → IsQueue sched.queue
      → listed m sm.rejected ≡ false
      → answers_any m items ≡ true
      → let (sm', sched', _) = reject_items p sm sched items in IsRefused m sm' sched'.queue
  unfolding reject_items
  reject_items-IsRefused m sm sched [] named rests queue new h = cc
  reject_items-IsRefused m sm sched (item ∷ items) named rests queue new h =
      let (sm₁, sched₁, _) = reject_item p sm sched item in
      let (rests₁, queue₁) = reject_item-invariant p sm sched item rests queue in
      elim (Bool-cases (answers m item)) [
        | inl hit ↦
            reject_items-keep m sm₁ sched₁ items named rests₁ queue₁
              (reject_item-answered m sm sched item named rests queue.unique new hit)
        | inr miss ↦
            reject_items-IsRefused m sm₁ sched₁ items named rests₁ queue₁
              (reject_item-other m sm sched item new miss) (ground arith)
      ]
