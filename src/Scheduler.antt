-- ===== src/Scheduler.antt =====
-- internal/inverter/scheduler.go: the queue of pending DERControl events, sorted by fire time, with
-- the randomization of IEEE 2030.5 section 10.1.4. Instants and durations are integers in
-- nanoseconds; the mutex and the log lines are left out.
pub mod Window
pub mod Queue
pub mod Order
use ieee_2030_5_client_go.Shared.{
  ℕ, zero, suc, ◌+◌, ◌/◌, ◌<◌, List, [], ◌∷◌, ◌++◌, Perm, Option, none, some, String, str_eq, ltb,
  if◌then◌else◌, is_empty, ℤ, pos, negsuc, ◌+ℤ◌, ◌-ℤ◌, ◌≤ℤ◌, ltb_ℤ, sec, All,
}
use ieee_2030_5_client_go.Sep2.{Interval, DerControl}

pub record ScheduledEvent : Type 0 where
  pub mrid : String
  pub fire_at : ℤ
  pub expire_at : ℤ
  pub source : DerControl

-- Fire times do not fall along the list.
abbrev pub IsSorted : List ScheduledEvent → Type 0
IsSorted [] = Unit
IsSorted (e ∷ es) = All (λ f. e.fire_at ≤ℤ f.fire_at) es × IsSorted es

-- What the scheduler uses of the standard library: a source of random numbers, where
-- `int64n s n` is Int64N of math/rand/v2, and sort.Slice by fire time, which need not be stable.
pub record Platform : Type 1 where
  pub Rng : Type 0
  pub int64n : Rng → ℕ → ℕ × Rng
  pub sort : List ScheduledEvent → List ScheduledEvent
  pub int64n_lt : (s : Rng) (n : ℕ) → 0 < n → (int64n s n).0 < n
  pub sort-IsSorted : (q : List ScheduledEvent) → IsSorted (sort q)
  pub sort-perm : (q : List ScheduledEvent) → Perm q (sort q)

-- removeByMRIDLocked: drops the first entry of that mRID. The code also returns whether there was
-- one, which is only logged.
unfoldable pub remove_by_mrid : String → List ScheduledEvent → List ScheduledEvent
remove_by_mrid m [] = []
remove_by_mrid m (e ∷ es) = if str_eq e.mrid m then es else e ∷ remove_by_mrid m es

-- The loop of PopExpired: the longest prefix whose fire time is not after `now`, and the rest.
unfoldable pub split_expired : ℤ → List ScheduledEvent → List ScheduledEvent × List ScheduledEvent
split_expired now [] = ([], [])
split_expired now (e ∷ es) =
    let (due, rest) = split_expired now es in
    if ltb_ℤ now e.fire_at then ([], e ∷ es) else (e ∷ due, rest)

-- The loop of OnEventsCancelled.
unfoldable pub remove_all : List String → List ScheduledEvent → List ScheduledEvent
remove_all [] q = q
remove_all (m ∷ ms) q = remove_all ms (remove_by_mrid m q)

unfoldable pub first : List ScheduledEvent → Option ScheduledEvent
first [] = none
first (e ∷ es) = some e

-- The composite literal of OnEventsAdded.
abbrev pub entry_of : DerControl → ℤ → ℤ → ScheduledEvent
entry_of ev fire_at expire_at = record {
  mrid = ev.mrid;
  fire_at = fire_at;
  expire_at = expire_at;
  source = ev;
}

module _ (p : Platform) where
  open p use {Rng, int64n, sort}

  pub record Scheduler : Type 0 where
    pub queue : List ScheduledEvent
    pub rng : Rng

  -- NewScheduler; a nil clock or source panics at startup.
  unfoldable pub new_scheduler : Rng → Scheduler
  new_scheduler rng = record { queue = []; rng = rng }

  -- applyRandomizeStart.
  unfoldable pub apply_randomize_start : ℤ → Option ℤ → Rng → ℤ × Rng
  apply_randomize_start start none rng = (start, rng)
  apply_randomize_start start (some (pos zero)) rng = (start, rng)
  apply_randomize_start start (some (pos (suc k))) rng =
      let (offset, rng') = int64n rng (suc k + 1) in (start +ℤ sec (pos offset), rng')
  apply_randomize_start start (some (negsuc k)) rng =
      let (offset, rng') = int64n rng (suc k + 1) in (start -ℤ sec (pos offset), rng')

  shift_duration : ℤ → ℕ → Rng → ℤ × Rng
  shift_duration duration rd rng =
      let (jitter, rng') = int64n rng (rd + 1) in
      (duration +ℤ sec (pos jitter -ℤ pos (rd / 2)), rng')

  -- applyRandomizeDuration.
  unfoldable pub apply_randomize_duration : ℤ → Option ℤ → Rng → ℤ × Rng
  unfolding shift_duration
  apply_randomize_duration duration none rng = (duration, rng)
  apply_randomize_duration duration (some (pos zero)) rng = (duration, rng)
  apply_randomize_duration duration (some (pos (suc k))) rng = shift_duration duration (suc k) rng
  apply_randomize_duration duration (some (negsuc k)) rng = shift_duration duration (suc k) rng

  -- computeWindow: the fire and the expiry instant, and the source after the draws.
  unfoldable pub compute_window : DerControl → Interval → Rng → ℤ × ℤ × Rng
  compute_window ev iv rng =
      let (fire_at, rng₁) = apply_randomize_start (sec iv.start) ev.randomize_start rng in
      let (jittered, rng₂) =
        apply_randomize_duration (sec (pos iv.duration)) ev.randomize_duration rng₁ in
      (fire_at, fire_at +ℤ (if ltb_ℤ jittered (pos 0) then pos 0 else jittered), rng₂)

  -- One round of the loop of OnEventsAdded.
  unfoldable pub add_event : Scheduler → DerControl → Scheduler
  add_event s ev = elim ev.interval [
    | none ↦ s
    | some iv ↦
        let (fire_at, expire_at, rng') = compute_window ev iv s.rng in
        record {
          queue = remove_by_mrid ev.mrid s.queue ++ entry_of ev fire_at expire_at ∷ [];
          rng = rng';
        }
  ]

  unfoldable pub add_events : Scheduler → List DerControl → Scheduler
  add_events s [] = s
  add_events s (ev ∷ evs) = add_events (add_event s ev) evs

  unfoldable pub on_events_added : Scheduler → List DerControl → Scheduler
  on_events_added s events =
      let t = add_events s events in
      if is_empty events then s else record t { queue = sort t.queue }

  unfoldable pub on_events_cancelled : Scheduler → List String → Scheduler
  unfolding remove_all
  on_events_cancelled s ms = record s { queue = remove_all ms s.queue }

  -- OnEventsUpdated is an intentional no-op.
  unfoldable pub on_events_updated : Scheduler → List DerControl → Scheduler
  on_events_updated s events = s

  -- Next: the head of the queue, left in place.
  unfoldable pub next : Scheduler → Option ScheduledEvent
  unfolding first
  next s = first s.queue

  unfoldable pub pop_expired : Scheduler → ℤ → List ScheduledEvent × Scheduler
  pop_expired s now =
      let (due, rest) = split_expired now s.queue in (due, record s { queue = rest })
