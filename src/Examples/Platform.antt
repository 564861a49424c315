-- ===== src/Examples/Platform.antt =====
-- Platform of the scheduler made concrete: insertion sort by fire time, and a counter for the random
-- source.
use mathlib.Core.List.Perm
use ieee_2030_5_client_go.Shared.{
  ℕ, ◌+◌, ◌%◌, ◌<◌, List, [], ◌∷◌, Perm, if◌then◌else◌, arith, ℤ, ltb_ℤ, ltb_ℤ→lt, ltb_ℤ→le, ◌≤ℤ◌,
  All, inl, inr, Bool-cases,
}
use ieee_2030_5_client_go.Scheduler.{ScheduledEvent, IsSorted, Platform}

abbrev pub insert : ScheduledEvent → List ScheduledEvent → List ScheduledEvent
insert e [] = e ∷ []
insert e (x ∷ xs) = if ltb_ℤ x.fire_at e.fire_at then x ∷ insert e xs else e ∷ x ∷ xs

abbrev pub insertion_sort : List ScheduledEvent → List ScheduledEvent
insertion_sort [] = []
insertion_sort (x ∷ xs) = insert x (insertion_sort xs)

insert-perm : (e : ScheduledEvent) (xs : List ScheduledEvent) → Perm (e ∷ xs) (insert e xs)
insert-perm e [] = Perm.refl _
insert-perm e (x ∷ xs) = elim (Bool-cases (ltb_ℤ x.fire_at e.fire_at)) [
  | inl t ↦ rw t (Perm.trans (Perm.swap x e xs) (Perm.cons x (insert-perm e xs)))
  | inr f ↦ rw f (Perm.refl _)
]

pub sort-perm : (xs : List ScheduledEvent) → Perm xs (insertion_sort xs)
sort-perm [] = Perm.refl []
sort-perm (x ∷ xs) = Perm.trans (Perm.cons x (sort-perm xs)) (insert-perm x (insertion_sort xs))

All-insert :
    (P : ScheduledEvent → Type 0) (e : ScheduledEvent) (xs : List ScheduledEvent)
    → P e
    → All P xs
    → All P (insert e xs)
All-insert P e [] h a = (h, tt)
All-insert P e (x ∷ xs) h a = ground (arith, All-insert P e xs h a.1)

All-le :
    (a b : ℤ) (xs : List ScheduledEvent)
    → a ≤ℤ b
    → All (λ f. b ≤ℤ f.fire_at) xs
    → All (λ f. a ≤ℤ f.fire_at) xs
All-le a b [] h k = tt
All-le a b (x ∷ xs) h k = (omega (arith, h, k.0), All-le a b xs h k.1)

insert-IsSorted :
    (e : ScheduledEvent) (xs : List ScheduledEvent) → IsSorted xs → IsSorted (insert e xs)
insert-IsSorted e [] h = (tt, tt)
insert-IsSorted e (x ∷ xs) h = elim (Bool-cases (ltb_ℤ x.fire_at e.fire_at)) [
  | inl t ↦ rw t (
    All-insert (λ f. x.fire_at ≤ℤ f.fire_at) e xs (omega (arith, ltb_ℤ→lt x.fire_at e.fire_at t))
        h.0,
    insert-IsSorted e xs h.1,
  )
  | inr f ↦
      let le = ltb_ℤ→le x.fire_at e.fire_at f in
      rw f ((le, All-le e.fire_at x.fire_at xs le h.0), h)
]

pub sort-IsSorted : (xs : List ScheduledEvent) → IsSorted (insertion_sort xs)
sort-IsSorted [] = tt
sort-IsSorted (x ∷ xs) = insert-IsSorted x (insertion_sort xs) (sort-IsSorted xs)

pub counter_lt : (s n : ℕ) → 0 < n → s % n < n
counter_lt s n h = grind arith

abbrev pub test_platform : Platform
test_platform = record {
  Rng = ℕ;
  int64n = λ s n. (s % n, s + 1);
  sort = insertion_sort;
  int64n_lt = counter_lt;
  sort-IsSorted = sort-IsSorted;
  sort-perm = sort-perm;
}
