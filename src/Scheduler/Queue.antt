-- ===== src/Scheduler/Queue.antt =====
-- The queue of internal/inverter/scheduler.go seen through the number of its entries for an mRID:
-- what adding and cancelling do to each mRID.
use ieee_2030_5_client_go.Shared.{
  ℕ, ◌+◌, ◌-◌, ◌≤◌, ◌≡◌, refl, sym, ◌∙◌, Bool, false, ◌&&◌, ◌||◌, List, [], ◌∷◌, ◌++◌, String,
  str_eq, eq_iff, inl, inr, Option-cases, if◌then◌else◌, is_some, listed, arith, count_if,
  count_if-append, count_if-perm,
}
use ieee_2030_5_client_go.Sep2.{DerControl}
use ieee_2030_5_client_go.Scheduler.{
  ScheduledEvent, Platform, Scheduler, remove_by_mrid, remove_all, entry_of, compute_window,
  add_event, add_events, on_events_added, on_events_cancelled,
}

abbrev pub has_mrid : String → ScheduledEvent → Bool
has_mrid m e = str_eq e.mrid m

-- How many entries an mRID has.
unfoldable pub occurs : String → List ScheduledEvent → ℕ
occurs m q = count_if (has_mrid m) q

abbrev pub IsUnique : List ScheduledEvent → Type 0
IsUnique q = (m : String) → occurs m q ≤ 1

-- Whether the list holds an event of that mRID with an interval.
abbrev pub schedules : String → List DerControl → Bool
schedules m [] = false
schedules m (ev ∷ evs) = str_eq ev.mrid m && is_some ev.interval || schedules m evs

pub occurs-remove_by_mrid :
    (k m : String) (q : List ScheduledEvent)
    → occurs k (remove_by_mrid m q) ≡ (if str_eq m k then occurs k q - 1 else occurs k q)
unfolding occurs remove_by_mrid
occurs-remove_by_mrid k m [] = ground arith
occurs-remove_by_mrid k m (e ∷ es) =
    ground (arith, eq_iff e.mrid m, eq_iff e.mrid k, eq_iff m k, occurs-remove_by_mrid k m es)

pub occurs-append :
    (k : String) (q r : List ScheduledEvent) → occurs k (q ++ r) ≡ occurs k q + occurs k r
unfolding occurs
occurs-append k q r = count_if-append (has_mrid k) q r

occurs_one :
    (k : String) (e : ScheduledEvent) → occurs k (e ∷ []) ≡ (if str_eq e.mrid k then 1 else 0)
unfolding occurs
occurs_one k e = refl

pub occurs-sort :
    (p : Platform) (k : String) (q : List ScheduledEvent) → occurs k (p.sort q) ≡ occurs k q
unfolding occurs
occurs-sort p k q = sym (count_if-perm (has_mrid k) (p.sort-perm q))

pub remove_by_mrid-IsUnique :
    (m : String) (q : List ScheduledEvent) → IsUnique q → IsUnique (remove_by_mrid m q)
remove_by_mrid-IsUnique m q u k = ground (arith, u k, occurs-remove_by_mrid k m q)

occurs-remove_all :
    (k : String) (ms : List String) (q : List ScheduledEvent)
    → IsUnique q
    → occurs k (remove_all ms q) ≡ (if listed k ms then 0 else occurs k q)
unfolding remove_all
occurs-remove_all k [] q u = refl
occurs-remove_all k (m ∷ ms) q u = ground (
  arith,
  u k,
  occurs-remove_by_mrid k m q,
  occurs-remove_all k ms (remove_by_mrid m q) (remove_by_mrid-IsUnique m q u),
)

-- The entry put in the place of those of its mRID.
occurs-replace :
    (k : String) (e : ScheduledEvent) (q : List ScheduledEvent)
    → IsUnique q
    → occurs k (remove_by_mrid e.mrid q ++ e ∷ []) ≡ (if str_eq e.mrid k then 1 else occurs k q)
occurs-replace k e q u = ground (
  arith,
  u k,
  occurs-append k (remove_by_mrid e.mrid q) (e ∷ []),
  occurs-remove_by_mrid k e.mrid q,
  occurs_one k e,
)

module _ (p : Platform) where
  open p use {Rng}

  occurs-add_event :
      (k : String) (s : Scheduler p) (ev : DerControl)
      → IsUnique s.queue
      → occurs k (add_event p s ev).queue
        ≡ (if str_eq ev.mrid k && is_some ev.interval then 1 else occurs k s.queue)
  unfolding add_event
  occurs-add_event k s ev u = elim (Option-cases ev.interval) [
    | inl e ↦ rw (e, add_event) (ground arith)
    | inr (iv, e) ↦
        let (fire_at, expire_at, _) = compute_window p ev iv s.rng in
        rw (e, add_event)
          (ground (arith, occurs-replace k (entry_of ev fire_at expire_at) s.queue u))
  ]

  add_event-IsUnique :
      (s : Scheduler p) (ev : DerControl) → IsUnique s.queue → IsUnique (add_event p s ev).queue
  add_event-IsUnique s ev u k = ground (arith, u k, occurs-add_event k s ev u)

  occurs-add_events :
      (k : String) (s : Scheduler p) (evs : List DerControl)
      → IsUnique s.queue
      → occurs k (add_events p s evs).queue ≡ (if schedules k evs then 1 else occurs k s.queue)
  unfolding add_events
  occurs-add_events k s [] u = refl
  occurs-add_events k s (ev ∷ evs) u = ground (
    arith,
    occurs-add_event k s ev u,
    occurs-add_events k (add_event p s ev) evs (add_event-IsUnique s ev u),
  )

  -- After OnEventsAdded on a queue with at most one entry for each mRID, an mRID has one entry if
  -- the list holds an event of that mRID with an interval, and otherwise as many as before.
  pub occurs-on_events_added :
      (k : String) (s : Scheduler p) (evs : List DerControl)
      → IsUnique s.queue
      → occurs k (on_events_added p s evs).queue ≡ (if schedules k evs then 1 else occurs k s.queue)
  unfolding on_events_added
  occurs-on_events_added k s [] u = refl
  occurs-on_events_added k s (ev ∷ evs) u =
      occurs-sort p k (add_events p s (ev ∷ evs)).queue ∙ occurs-add_events k s (ev ∷ evs) u

  -- After OnEventsCancelled on a queue with at most one entry for each mRID, a listed mRID has no
  -- entry and every other mRID has as many as before.
  pub occurs-on_events_cancelled :
      (k : String) (s : Scheduler p) (ms : List String)
      → IsUnique s.queue
      → occurs k (on_events_cancelled p s ms).queue ≡ (if listed k ms then 0 else occurs k s.queue)
  unfolding on_events_cancelled
  occurs-on_events_cancelled k s ms u = occurs-remove_all k ms s.queue u

  pub on_events_added-IsUnique :
      (s : Scheduler p) (evs : List DerControl)
      → IsUnique s.queue
      → IsUnique (on_events_added p s evs).queue
  on_events_added-IsUnique s evs u k = ground (arith, u k, occurs-on_events_added k s evs u)

  pub on_events_cancelled-IsUnique :
      (s : Scheduler p) (ms : List String)
      → IsUnique s.queue
      → IsUnique (on_events_cancelled p s ms).queue
  on_events_cancelled-IsUnique s ms u k = ground (arith, u k, occurs-on_events_cancelled k s ms u)
