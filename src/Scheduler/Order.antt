-- ===== src/Scheduler/Order.antt =====
-- The invariant of the queue of internal/inverter/scheduler.go, and what PopExpired and Next return.
use mathlib.Core.HLevel.{×_prop}
use ieee_2030_5_client_go.Shared.{
  ◌≡◌, refl, ap, List, [], ◌∷◌, ◌++◌, String, inl, inr, Bool-cases, Option-cases, arith, ℤ, ◌≤ℤ◌,
  ◌<ℤ◌, ltb_ℤ, ltb_ℤ→lt, ltb_ℤ→le, ≤ℤ-prop, String-set, All, All-append, All-perm,
}
use ieee_2030_5_client_go.Sep2.{DerControl}
use ieee_2030_5_client_go.Scheduler.{
  ScheduledEvent, Platform, Scheduler, IsSorted, remove_by_mrid, remove_all, split_expired,
  entry_of, compute_window, add_event, add_events, on_events_added, on_events_cancelled,
  pop_expired,
}
use ieee_2030_5_client_go.Scheduler.Window.{compute_window_bounds}
use ieee_2030_5_client_go.Scheduler.Queue.{
  occurs, IsUnique, occurs-append, on_events_added-IsUnique, on_events_cancelled-IsUnique,
}

-- An entry stands under the mRID of its event and does not expire before it fires.
abbrev pub IsEntry : ScheduledEvent → Type 0
IsEntry e = (e.mrid ≡ e.source.mrid) × (e.fire_at ≤ℤ e.expire_at)

pub record IsQueue (q : List ScheduledEvent) : Type 0 where
  pub sorted : IsSorted q
  pub unique : IsUnique q
  pub entries : All IsEntry q

IsEntry-prop : (e : ScheduledEvent) → IsProp (IsEntry e)
IsEntry-prop e = ×_prop (String-set _ _) (≤ℤ-prop e.fire_at e.expire_at)

All-remove_by_mrid :
    (P : ScheduledEvent → Type 0) (m : String) (q : List ScheduledEvent)
    → All P q
    → All P (remove_by_mrid m q)
unfolding remove_by_mrid
All-remove_by_mrid P m [] h = h
All-remove_by_mrid P m (e ∷ es) h = ground (arith, All-remove_by_mrid P m es h.1)

remove_by_mrid-IsSorted :
    (m : String) (q : List ScheduledEvent) → IsSorted q → IsSorted (remove_by_mrid m q)
unfolding remove_by_mrid
remove_by_mrid-IsSorted m [] h = h
remove_by_mrid-IsSorted m (e ∷ es) h = ground (
  arith,
  remove_by_mrid-IsSorted m es h.1,
  All-remove_by_mrid (λ f. e.fire_at ≤ℤ f.fire_at) m es h.0,
)

remove_all-IsSorted :
    (ms : List String) (q : List ScheduledEvent) → IsSorted q → IsSorted (remove_all ms q)
unfolding remove_all
remove_all-IsSorted [] q h = h
remove_all-IsSorted (m ∷ ms) q h = remove_all-IsSorted ms _ (remove_by_mrid-IsSorted m q h)

All-remove_all :
    (P : ScheduledEvent → Type 0) (ms : List String) (q : List ScheduledEvent)
    → All P q
    → All P (remove_all ms q)
unfolding remove_all
All-remove_all P [] q h = h
All-remove_all P (m ∷ ms) q h = All-remove_all P ms _ (All-remove_by_mrid P m q h)

-- The two parts make up the queue.
pub split_expired-append :
    (now : ℤ) (q : List ScheduledEvent) → (split_expired now q).0 ++ (split_expired now q).1 ≡ q
unfolding split_expired
split_expired-append now [] = refl
split_expired-append now (e ∷ es) = ground (arith, split_expired-append now es)

split_expired_due :
    (now : ℤ) (q : List ScheduledEvent) → All (λ e. e.fire_at ≤ℤ now) (split_expired now q).0
unfolding split_expired
split_expired_due now [] = tt
split_expired_due now (e ∷ es) = elim (Bool-cases (ltb_ℤ now e.fire_at)) [
  | inl later ↦ rw later tt
  | inr due ↦ rw due (ltb_ℤ→le now e.fire_at due, split_expired_due now es)
]

All-mono :
    (now : ℤ) (e : ScheduledEvent) (q : List ScheduledEvent)
    → now <ℤ e.fire_at
    → All (λ f. e.fire_at ≤ℤ f.fire_at) q
    → All (λ f. now <ℤ f.fire_at) q
All-mono now e [] h a = tt
All-mono now e (f ∷ q) h a = (omega (arith, h, a.0), All-mono now e q h a.1)

pub split_expired_later :
    (now : ℤ) (q : List ScheduledEvent)
    → IsSorted q
    → All (λ e. now <ℤ e.fire_at) (split_expired now q).1
unfolding split_expired
split_expired_later now [] h = tt
split_expired_later now (e ∷ es) h = elim (Bool-cases (ltb_ℤ now e.fire_at)) [
  | inl later ↦ let lt = ltb_ℤ→lt now e.fire_at later in rw later (lt, All-mono now e es lt h.0)
  | inr due ↦ rw due (split_expired_later now es h.1)
]

pub split_expired_rest :
    (P : ScheduledEvent → Type 0) (now : ℤ) (q : List ScheduledEvent)
    → All P q
    → All P (split_expired now q).1
unfolding split_expired
split_expired_rest P now [] h = h
split_expired_rest P now (e ∷ es) h = ground (arith, split_expired_rest P now es h.1)

split_expired-IsSorted :
    (now : ℤ) (q : List ScheduledEvent) → IsSorted q → IsSorted (split_expired now q).1
unfolding split_expired
split_expired-IsSorted now [] h = h
split_expired-IsSorted now (e ∷ es) h = ground (arith, split_expired-IsSorted now es h.1)

split_expired-IsUnique :
    (now : ℤ) (q : List ScheduledEvent) → IsUnique q → IsUnique (split_expired now q).1
split_expired-IsUnique now q u k =
    let (due, rest) = split_expired now q in
    omega (arith, u k, ap (occurs k) (split_expired-append now q), occurs-append k due rest)

module _ (p : Platform) where
  open p use {Rng}

  add_event-entries :
      (s : Scheduler p) (ev : DerControl)
      → All IsEntry s.queue
      → All IsEntry (add_event p s ev).queue
  unfolding add_event
  add_event-entries s ev h = elim (Option-cases ev.interval) [
    | inl e ↦ rw (e, add_event) h
    | inr (iv, e) ↦
        let (fire_at, expire_at, _) = compute_window p ev iv s.rng in
        rw (e, add_event)
          (All-append IsEntry _ (entry_of ev fire_at expire_at ∷ [])
            (All-remove_by_mrid IsEntry ev.mrid s.queue h)
            ((refl, (compute_window_bounds p ev iv s.rng).1.0), tt))
  ]

  add_events-entries :
      (s : Scheduler p) (evs : List DerControl)
      → All IsEntry s.queue
      → All IsEntry (add_events p s evs).queue
  unfolding add_events
  add_events-entries s [] h = h
  add_events-entries s (ev ∷ evs) h =
      add_events-entries (add_event p s ev) evs (add_event-entries s ev h)

  -- OnEventsAdded keeps the queue sorted, with one entry at most for each mRID, and each entry with
  -- the mRID of its event and no expiry before its fire time.
  pub on_events_added-IsQueue :
      (s : Scheduler p) (evs : List DerControl)
      → IsQueue s.queue
      → IsQueue (on_events_added p s evs).queue
  unfolding on_events_added
  on_events_added-IsQueue s [] h = h
  on_events_added-IsQueue s (ev ∷ evs) h = record {
    sorted = p.sort-IsSorted _;
    unique = on_events_added-IsUnique p s (ev ∷ evs) h.unique;
    entries =
        All-perm IsEntry IsEntry-prop (p.sort-perm _) (add_events-entries s (ev ∷ evs) h.entries);
  }

  pub on_events_cancelled-IsQueue :
      (s : Scheduler p) (ms : List String)
      → IsQueue s.queue
      → IsQueue (on_events_cancelled p s ms).queue
  unfolding on_events_cancelled
  on_events_cancelled-IsQueue s ms h = record {
    sorted = remove_all-IsSorted ms s.queue h.sorted;
    unique = on_events_cancelled-IsUnique p s ms h.unique;
    entries = All-remove_all IsEntry ms s.queue h.entries;
  }

  pub pop_expired-IsQueue :
      (s : Scheduler p) (now : ℤ) → IsQueue s.queue → IsQueue (pop_expired p s now).1.queue
  unfolding pop_expired
  pop_expired-IsQueue s now h = record {
    sorted = split_expired-IsSorted now s.queue h.sorted;
    unique = split_expired-IsUnique now s.queue h.unique;
    entries = split_expired_rest IsEntry now s.queue h.entries;
  }

  -- PopExpired on a sorted queue cuts it in two: the events it returns are those due at `now`, in
  -- the queue's order, and those it keeps are those that fire later.
  pub pop_expired_lem :
      (s : Scheduler p) (now : ℤ)
      → IsSorted s.queue
      → let (due, s') = pop_expired p s now in
        (due ++ s'.queue ≡ s.queue)
        × All (λ e. e.fire_at ≤ℤ now) due
        × All (λ e. now <ℤ e.fire_at) s'.queue
  unfolding pop_expired
  pop_expired_lem s now h = (
    split_expired-append now s.queue,
    split_expired_due now s.queue,
    split_expired_later now s.queue h,
  )

split_expired_front :
    (P : ScheduledEvent → Type 0) (now : ℤ) (q : List ScheduledEvent)
    → All P q
    → All P (split_expired now q).0
unfolding split_expired
split_expired_front P now [] h = h
split_expired_front P now (e ∷ es) h = ground (arith, split_expired_front P now es h.1)

pub pop_expired_entries :
    (P : ScheduledEvent → Type 0) (p : Platform) (s : Scheduler p) (now : ℤ)
    → All P s.queue
    → All P (pop_expired p s now).0
unfolding pop_expired
pop_expired_entries P p s now h = split_expired_front P now s.queue h
