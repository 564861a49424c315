-- ===== src/Session/Snapshots.antt =====
-- diffSnapshots of cmd/inverterclient/main.go against the two snapshots: which mRIDs are added and
-- which are cancelled.
use ieee_2030_5_client_go.Shared.{
  ◌≡◌, refl, ◌≢◌, inl, inr, Bool, true, false, not, ◌||◌, List, [], ◌∷◌, ◌++◌, Option, none, some,
  String, str_eq, eq_iff, arith, if◌then◌else◌, is_some, listed, Bool-cases, Option-cases,
  str_eq→eq, ◌⊎◌, ap,
}
use ieee_2030_5_client_go.Shared.Map.{lookup, insert, string_eq}
use ieee_2030_5_client_go.Sep2.{DerControl}
use ieee_2030_5_client_go.Scheduler.Queue.{schedules}
use ieee_2030_5_client_go.ControlCache.{Cache, ListResult, commit, refresh, accepted_controls}
use ieee_2030_5_client_go.StateMachine.Passes.{known_mrids}
use ieee_2030_5_client_go.StateMachine.Tick.{is_cancelled}
use ieee_2030_5_client_go.Session.{Controls, changed_in, removed_from, diff_snapshots}

-- Every control stands under its own mRID, which is not empty.
abbrev pub IsKeyed : Controls → Type 0
IsKeyed [] = Unit
IsKeyed ((m, c) ∷ cs) = (c.mrid ≡ m) × (m ≢ "") × IsKeyed cs

-- The snapshot holds the mRID, and the server has not cancelled it.
abbrev live_one : Option DerControl → Bool
live_one none = false
live_one (some c) = not (is_cancelled c.status)

abbrev pub is_standing : String → Controls → Bool
is_standing m snap = live_one (lookup m snap)

insert-IsKeyed :
    (c : DerControl) (snap : Controls) → c.mrid ≢ "" → IsKeyed snap → IsKeyed (insert c.mrid c snap)
unfolding insert
insert-IsKeyed c [] named h = (refl, named, tt)
insert-IsKeyed c ((m, d) ∷ snap) named h =
    elim (str_eq m c.mrid)
      as (λ b. IsKeyed (if b then (c.mrid, c) ∷ snap else (m, d) ∷ insert c.mrid c snap)) [
        | true ↦ (refl, named, h.2)
        | false ↦ (h.0, h.1, insert-IsKeyed c snap named h.2)
      ]

commit-IsKeyed : (cs : List DerControl) (snap : Controls) → IsKeyed snap → IsKeyed (commit cs snap)
unfolding commit
commit-IsKeyed [] snap h = h
commit-IsKeyed (c ∷ cs) snap h =
    commit-IsKeyed cs (if str_eq c.mrid "" then snap else insert c.mrid c snap)
      (elim (Bool-cases (str_eq c.mrid "")) [
        | inl e ↦ rw e h
        | inr e ↦ rw e (insert-IsKeyed c snap (λ n. ground (arith, (eq_iff c.mrid "").1 n)) h)
      ])

-- The cache after Refresh is such a snapshot.
pub refresh-IsKeyed : (c : Cache) (list : ListResult) → IsKeyed (refresh c list).0.controls
unfolding refresh
refresh-IsKeyed c list = commit-IsKeyed (accepted_controls list) [] tt

listed-known_mrids-append :
    (m : String) (xs ys : List DerControl)
    → listed m (known_mrids (xs ++ ys)) ≡ (listed m (known_mrids xs) || listed m (known_mrids ys))
unfolding known_mrids
listed-known_mrids-append m [] ys = refl
listed-known_mrids-append m (x ∷ xs) ys = ground (arith, listed-known_mrids-append m xs ys)

cancelled_one : Option DerControl → Bool
cancelled_one none = false
cancelled_one (some c) = is_cancelled c.status

listed-changed_in :
    (m : String) (prev curr : Controls)
    → m ≢ ""
    → IsKeyed curr
    → cancelled_one (lookup m curr) ≡ true
    → listed m (known_mrids (changed_in prev curr).1) ≡ true
unfolding changed_in known_mrids lookup cancelled_one
listed-changed_in m prev [] named keyed h = absurd (cc)
listed-changed_in m prev ((k, d) ∷ curr) named keyed h = ground (
  arith,
  keyed.0,
  eq_iff k m,
  eq_iff d.mrid m,
  eq_iff d.mrid "",
  listed-changed_in m prev curr named keyed.2,
)

listed-removed_from :
    (m : String) (curr prev : Controls)
    → m ≢ ""
    → IsKeyed prev
    → is_some (lookup m curr) ≡ false
    → is_some (lookup m prev) ≡ true
    → listed m (known_mrids (removed_from curr prev)) ≡ true
unfolding removed_from known_mrids lookup
listed-removed_from m curr [] named keyed gone h = absurd (cc)
listed-removed_from m curr ((k, d) ∷ prev) named keyed gone h = elim (Bool-cases (str_eq k m)) [
  | inl e ↦ ground (
    arith,
    str_eq→eq k m e,
    ap (λ j. is_some (lookup j curr)) (str_eq→eq k m e),
    keyed.0,
    eq_iff d.mrid m,
    eq_iff d.mrid "",
  )
  | inr e ↦ ground (
    arith,
    keyed.0,
    eq_iff d.mrid m,
    eq_iff d.mrid "",
    listed-removed_from m curr prev named keyed.2 gone,
  )
]

schedules-changed_in :
    (m : String) (prev curr : Controls)
    → IsKeyed curr
    → is_some (lookup m curr) ≡ false
    → schedules m (changed_in prev curr).0 ≡ false
unfolding changed_in lookup
schedules-changed_in m prev [] keyed h = refl
schedules-changed_in m prev ((k, d) ∷ curr) keyed h =
    ground (arith, keyed.0, eq_iff k m, eq_iff d.mrid m, schedules-changed_in m prev curr keyed.2)

lookup_unnamed : (snap : Controls) → IsKeyed snap → is_some (lookup "" snap) ≡ false
unfolding lookup
lookup_unnamed [] keyed = refl
lookup_unnamed ((k, d) ∷ snap) keyed = ground (arith, eq_iff k "", lookup_unnamed snap keyed.2)

-- No event without an mRID is added.
pub schedules-diff_snapshots_unnamed :
    (prev curr : Controls) → IsKeyed curr → schedules "" (diff_snapshots prev curr).0 ≡ false
unfolding diff_snapshots
schedules-diff_snapshots_unnamed prev curr keyed =
    schedules-changed_in "" prev curr keyed (lookup_unnamed curr keyed)

-- A named mRID that the new snapshot has not, or has cancelled, is either cancelled, or neither known
-- before nor added.
pub diff_snapshots-dead :
    (m : String) (prev curr : Controls)
    → m ≢ ""
    → IsKeyed prev
    → IsKeyed curr
    → is_standing m curr ≡ false
    → (listed m (known_mrids (diff_snapshots prev curr).1) ≡ true)
      ⊎ ((lookup m prev ≡ none) × (schedules m (diff_snapshots prev curr).0 ≡ false))
unfolding diff_snapshots cancelled_one
diff_snapshots-dead m prev curr named keyed keyed' dead =
    let cancelled = (changed_in prev curr).1 in
    let both = listed-known_mrids-append m cancelled (removed_from curr prev) in
    elim (Option-cases (lookup m curr)) [
      | inl absent ↦ elim (Option-cases (lookup m prev)) [
        | inl unknown ↦ inr (unknown, schedules-changed_in m prev curr keyed' (rw absent refl))
        | inr (d, known) ↦ inl (ground (arith, both, listed-removed_from m curr prev named keyed))
      ]
      | inr (c, there) ↦ inl (ground (arith, both, listed-changed_in m prev curr named keyed'))
    ]
