-- ===== src/Session/Backed.antt =====
-- step of followProgram in cmd/inverterclient/managed_controls.go: the machine acts on nothing but
-- what the last list holds.
use ieee_2030_5_client_go.Shared.{
  ◌≡◌, refl, sym, ◌≢◌, ◌∙◌, inl, inr, true, false, List, [], Option, some, String, arith, ℤ,
  Bool-cases, ap,
}
use ieee_2030_5_client_go.Shared.Map.{lookup, string_eq}
use ieee_2030_5_client_go.Sep2.{DerControl, RejectedControl}
use ieee_2030_5_client_go.Scheduler.{ScheduledEvent, Platform, Scheduler}
use ieee_2030_5_client_go.Scheduler.Order.{IsQueue}
use ieee_2030_5_client_go.ControlCache.{Cache}
use ieee_2030_5_client_go.StateMachine.{EventState, Machine, is_default, default, event_started}
use ieee_2030_5_client_go.StateMachine.Tick.{tick, compute_transitions, reject_items, reject}
use ieee_2030_5_client_go.StateMachine.Invariant.{
  IsResting, Rests, compute_transitions-invariant, reject_items-invariant,
}
use ieee_2030_5_client_go.StateMachine.Idle.{IsIdle, cancelled-IsIdle}
use ieee_2030_5_client_go.StateMachine.Kept.{compute_transitions-IsIdle, reject_items-IsIdle}
use ieee_2030_5_client_go.StateMachine.Named.{
  IsNamed, compute_transitions-IsNamed, reject_items-IsNamed,
}
use ieee_2030_5_client_go.Session.{Controls, diff_snapshots, step_events}
use ieee_2030_5_client_go.Session.Snapshots.{
  IsKeyed, is_standing, diff_snapshots-dead, schedules-diff_snapshots_unnamed,
}

-- No named mRID is active or queued that the snapshot lacks, or has as cancelled.
abbrev pub NoneDead : Controls → Machine → List ScheduledEvent → Type 0
NoneDead snap sm q = (m : String) → m ≢ "" → is_standing m snap ≡ false → IsIdle m sm q

pub record IsBacked (snap : Controls) (sm : Machine) (q : List ScheduledEvent) : Type 0 where
  pub rests : IsResting sm
  pub queue : IsQueue q
  pub named : IsNamed sm q
  pub dead : NoneDead snap sm q

module _ (p : Platform) where
  -- A pass on the difference of two snapshots.
  pub diff-IsBacked :
      (now : ℤ) (prev curr : Controls) (sm : Machine) (sched : Scheduler p)
      → IsKeyed prev
      → IsKeyed curr
      → IsBacked prev sm sched.queue
      → let (added, cancelled) = diff_snapshots prev curr in
        let (sm', sched', _) = compute_transitions p now added cancelled sm sched in
        IsBacked curr sm' sched'.queue
  diff-IsBacked now prev curr sm sched keyed keyed' b =
      let (added, cancelled) = diff_snapshots prev curr in
      let (rests', queue') =
        compute_transitions-invariant p now added cancelled sm sched b.rests b.queue in
      record {
        rests = rests';
        queue = queue';
        named =
            compute_transitions-IsNamed p now added cancelled sm sched b.queue.unique
              (schedules-diff_snapshots_unnamed prev curr keyed') b.named;
        dead = λ m named gone. elim (diff_snapshots-dead m prev curr named keyed keyed' gone) [
          | inl hit ↦
              cancelled-IsIdle p m now added cancelled sm sched named b.rests b.queue.unique hit
          | inr (unknown, absent) ↦
              compute_transitions-IsIdle p m now added cancelled sm sched named b.queue.unique
                absent (b.dead m named (rw unknown refl))
        ];
      }

  -- A pass on nothing, as where the list cannot be read.
  pub idle_pass-IsBacked :
      (now : ℤ) (snap : Controls) (sm : Machine) (sched : Scheduler p)
      → IsBacked snap sm sched.queue
      → let (sm', sched', _) = compute_transitions p now [] [] sm sched in
        IsBacked snap sm' sched'.queue
  idle_pass-IsBacked now snap sm sched b =
      let (rests', queue') = compute_transitions-invariant p now [] [] sm sched b.rests b.queue in
      record {
        rests = rests';
        queue = queue';
        named = compute_transitions-IsNamed p now [] [] sm sched b.queue.unique refl b.named;
        dead = λ m named gone.
            compute_transitions-IsIdle p m now [] [] sm sched named b.queue.unique refl
              (b.dead m named gone);
      }

  reject_items-IsBacked :
      (snap : Controls) (sm : Machine) (sched : Scheduler p) (items : List RejectedControl)
      → IsBacked snap sm sched.queue
      → let (sm', sched', _) = reject_items p sm sched items in IsBacked snap sm' sched'.queue
  reject_items-IsBacked snap sm sched items b =
      let (rests', queue') = reject_items-invariant p sm sched items b.rests b.queue in
      record {
        rests = rests';
        queue = queue';
        named = reject_items-IsNamed p sm sched items b.rests b.queue b.named;
        dead = λ m named gone.
            reject_items-IsIdle p m sm sched items named b.rests b.queue (b.dead m named gone);
      }

  -- stepEvents from a machine that acts on nothing but what the last snapshot holds and the server
  -- has not cancelled: then it acts on nothing but what the new one holds and the server has not
  -- cancelled, whatever the two snapshots are, and the new snapshot is returned.
  pub step_events-IsBacked :
      (now : ℤ) (cache : Cache) (prev : Controls) (sm : Machine) (sched : Scheduler p)
      → IsKeyed prev
      → IsKeyed cache.controls
      → IsBacked prev sm sched.queue
      → let (sm', sched', _, curr) = step_events p now cache prev sm sched in
        (curr ≡ cache.controls) × IsBacked curr sm' sched'.queue
  unfolding step_events tick reject
  step_events-IsBacked now cache prev sm sched keyed keyed' b =
      let (sm₁, sched₁, _) = reject_items p sm sched cache.rejected in
      (
        refl,
        diff-IsBacked now prev cache.controls sm₁ sched₁ keyed keyed'
            (reject_items-IsBacked prev sm sched cache.rejected b),
      )

is_default→eq : (st : EventState) → is_default st ≡ true → st ≡ default
is_default→eq st h = ground arith

-- Where nothing is left to act on, the machine is in DEFAULT.
pub IsBacked-state :
    (sm : Machine) (q : List ScheduledEvent) → IsBacked [] sm q → sm.state ≡ default
unfolding lookup
IsBacked-state sm q b = elim (Bool-cases (is_default sm.state)) [
  | inl e ↦ is_default→eq sm.state e
  | inr e ↦ absurd ((b.dead sm.active_mrid (b.named.active e) refl).inactive refl)
]

Rests-active :
    (st : EventState) (m : String) (o : Option DerControl) (t : ℤ) (c : DerControl)
    → Rests st m o t
    → st ≡ event_started
    → o ≡ some c
    → c.mrid ≡ m
Rests-active st m o t c h e f = ground arith

-- The event that is in force, if any, is one that the snapshot holds and the server has not cancelled.
pub IsBacked-live :
    (snap : Controls) (sm : Machine) (q : List ScheduledEvent) (c : DerControl)
    → IsBacked snap sm q
    → sm.state ≡ event_started
    → sm.active_der_ctrl ≡ some c
    → is_standing c.mrid snap ≡ true
IsBacked-live snap sm q c b started active =
    let same =
      Rests-active sm.state sm.active_mrid sm.active_der_ctrl sm.active_expire_at c b.rests started
        active in
    let named : sm.active_mrid ≢ "" = b.named.active (ap is_default started) in
    elim (Bool-cases (is_standing c.mrid snap)) [
      | inl e ↦ e
      | inr e ↦ absurd ((b.dead c.mrid (λ u. named (sym same ∙ u)) e).inactive (sym same))
    ]
