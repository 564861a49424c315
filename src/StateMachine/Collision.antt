-- ===== src/StateMachine/Collision.antt =====
-- Two events due in one pass of Tick in internal/inverter/statemachine.go: step 4 looks at the first
-- alone, and PopExpired has taken both off the queue.
use ieee_2030_5_client_go.Shared.{
  All, Bool-cases, str_eq, str_eq→eq, inl, inr, ◌<ℤ◌, ◌≡◌, refl, ◌≢◌, ◌∙◌, List, [], ◌∷◌, String,
  eq_iff, arith, ℤ, ◌≤ℤ◌, le→ltb_ℤ,
}
use ieee_2030_5_client_go.Scheduler.{
  IsSorted, ScheduledEvent, Platform, Scheduler, first, split_expired,
}
use ieee_2030_5_client_go.Scheduler.Queue.{occurs}
use ieee_2030_5_client_go.Scheduler.Order.{split_expired_later, split_expired_rest}
use ieee_2030_5_client_go.StateMachine.{event_received, Machine}
use ieee_2030_5_client_go.StateMachine.Passes.{
  complete, receive_head, start_head, drain, observe_head,
}
use ieee_2030_5_client_go.StateMachine.Tick.{compute_transitions}
use ieee_2030_5_client_go.StateMachine.Quiet.{late_steps, quiet_pass}
use ieee_2030_5_client_go.StateMachine.Stranding.{IsStranded}

late_steps-waiting :
    (now : ℤ) (sm : Machine) (b : ScheduledEvent) (due rest : List ScheduledEvent)
    → sm.state ≡ event_received
    → b.mrid ≢ sm.active_mrid
    → late_steps now sm (b ∷ due) rest ≡ (sm, [])
unfolding late_steps complete drain receive_head start_head observe_head first
late_steps-waiting now sm b due [] w ne = ground (arith, eq_iff sm.active_mrid b.mrid)
late_steps-waiting now sm b due (c ∷ rest) w ne = ground (arith, eq_iff sm.active_mrid b.mrid)

pub split_expired_due_head :
    (now : ℤ) (b : ScheduledEvent) (rest : List ScheduledEvent)
    → b.fire_at ≤ℤ now
    → split_expired now (b ∷ rest) ≡ (b ∷ (split_expired now rest).0, (split_expired now rest).1)
unfolding split_expired
split_expired_due_head now b rest h = rw (le→ltb_ℤ now b.fire_at h) refl

-- Every entry of that mRID is due.
abbrev pub IsDue : String → ℤ → List ScheduledEvent → Type 0
IsDue m now q = All (λ e. e.mrid ≡ m → e.fire_at ≤ℤ now) q

occurs-later :
    (m : String) (now : ℤ) (q : List ScheduledEvent)
    → IsDue m now q
    → All (λ e. now <ℤ e.fire_at) q
    → occurs m q ≡ 0
unfolding occurs
occurs-later m now [] due late = refl
occurs-later m now (e ∷ q) due late = elim (Bool-cases (str_eq e.mrid m)) [
  | inl same ↦ absurd (omega (arith, due.0 (str_eq→eq e.mrid m same), late.0))
  | inr other ↦ ground (arith, occurs-later m now q due.1 late.1)
]

occurs-split_later :
    (m : String) (now : ℤ) (q : List ScheduledEvent)
    → IsSorted q
    → IsDue m now q
    → occurs m (split_expired now q).1 ≡ 0
occurs-split_later m now q sorted due =
    occurs-later m now (split_expired now q).1
      (split_expired_rest (λ e. e.mrid ≡ m → e.fire_at ≤ℤ now) now q due)
      (split_expired_later now q sorted)

module _ (p : Platform) where
  -- While the machine waits for the event `m`, let another event head the sorted queue and be due,
  -- and let every entry of `m` be due too. A pass of Tick with nothing added or cancelled then
  -- records no transition, and leaves the machine waiting for `m` with `m` off the queue.
  pub compute_transitions_strands :
      (m : String) (now : ℤ) (sm : Machine) (b : ScheduledEvent) (rest : List ScheduledEvent)
      (rng : p.Rng)
      → sm.state ≡ event_received
      → sm.active_mrid ≡ m
      → b.mrid ≢ m
      → b.fire_at ≤ℤ now
      → IsSorted rest
      → IsDue m now rest
      → let sched : Scheduler p = record { queue = b ∷ rest; rng = rng } in
        let (sm', sched', ts) = compute_transitions p now [] [] sm sched in
        IsStranded m sm' sched'.queue × (ts ≡ [])
  compute_transitions_strands m now sm b rest rng w a ne due sorted awaited_due =
      let sched : Scheduler p = record { queue = b ∷ rest; rng = rng } in
      let o = occurs-split_later m now rest sorted awaited_due in
      let (early, later) = split_expired now rest in
      let idle : late_steps now sm (b ∷ early) later ≡ (sm, []) =
        late_steps-waiting now sm b early later w (λ e. ne (e ∙ a)) in
      rw (quiet_pass p now sm sched, split_expired_due_head now b rest due, idle)
        (record { waiting = w; awaited = a; gone = o }, refl)
