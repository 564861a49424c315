-- ===== src/RequestGuard/RefusalLog.antt =====
-- The bounded log of refusals of internal/inverter/guard/guard.go.
use ieee_2030_5_client_go.Shared.{
  ◌≡◌, Bool, true, false, List, [], ◌∷◌, none, some, String, eq_iff, if◌then◌else◌, arith, ℤ, pos,
  ◌+ℤ◌, ◌-ℤ◌, ◌≤ℤ◌, ◌<ℤ◌, ltb_ℤ, int_laws, lt→ltb_ℤ,
}
use ieee_2030_5_client_go.Shared.Map.{lookup, insert, lookup-insert, string_eq}

-- The factor refusalPruneFactor, 4, times the window.
abbrev pub four_times : ℤ → ℤ
four_times w = w +ℤ w +ℤ (w +ℤ w)

-- The pruning loop of logRefusal: drops the shapes that have been quiet for four windows.
unfoldable pub prune : ℤ → ℤ → List (String × ℤ) → List (String × ℤ)
prune window now [] = []
prune window now ((k, t) ∷ m) =
    let rest = prune window now m in
    if ltb_ℤ (now -ℤ t) (four_times window) then (k, t) ∷ rest else rest

-- logRefusal with a logger installed, on the key of the refusal: the map of last times, and whether
-- the line is logged.
unfoldable pub log_refusal : ℤ → ℤ → String → List (String × ℤ) → List (String × ℤ) × Bool
log_refusal window now key last =
    let logged : List (String × ℤ) × Bool = (prune window now (insert key now last), true) in
    elim (lookup key last) [
      | none ↦ logged
      | some t ↦ if ltb_ℤ (now -ℤ t) window then (last, false) else logged
    ]

-- The last times after a list of refusals, each a key and its time.
unfoldable pub log_all : ℤ → List (String × ℤ) → List (String × ℤ) → List (String × ℤ)
log_all window [] last = last
log_all window ((key, now) ∷ refusals) last =
    log_all window refusals (log_refusal window now key last).0

-- Every time lies in the window that starts at `t`.
abbrev pub AllWithin : ℤ → ℤ → List (String × ℤ) → Type 0
AllWithin window t [] = Unit
AllWithin window t ((_, now) ∷ rest) = (t ≤ℤ now) × (now <ℤ t +ℤ window) × AllWithin window t rest

lookup-prune :
    (window now : ℤ) (key : String) (t : ℤ) (m : List (String × ℤ))
    → ltb_ℤ (now -ℤ t) (four_times window) ≡ true
    → lookup key m ≡ some t
    → lookup key (prune window now m) ≡ some t
unfolding lookup prune
lookup-prune window now key t [] h e = e
lookup-prune window now key t ((k, u) ∷ m) h e =
    ground (arith, eq_iff k key, lookup-prune window now key t m h)

recent : (window now t : ℤ) → t ≤ℤ now → now <ℤ t +ℤ window → ltb_ℤ (now -ℤ t) window ≡ true
recent window now t h k = lt→ltb_ℤ (now -ℤ t) window (omega int_laws)

recent_enough :
    (window now t : ℤ)
    → pos 0 ≤ℤ window
    → t ≤ℤ now
    → now <ℤ t +ℤ window
    → ltb_ℤ (now -ℤ t) (four_times window) ≡ true
recent_enough window now t w h k = lt→ltb_ℤ (now -ℤ t) (four_times window) (omega int_laws)

log_refusal_keeps :
    (window now t : ℤ) (key k : String) (last : List (String × ℤ))
    → pos 0 ≤ℤ window
    → t ≤ℤ now
    → now <ℤ t +ℤ window
    → lookup key last ≡ some t
    → lookup key (log_refusal window now k last).0 ≡ some t
unfolding log_refusal
log_refusal_keeps window now t key k last w h l e = ground (
  arith,
  eq_iff k key,
  lookup-insert k key now last,
  lookup-prune window now key t (insert k now last),
  recent window now t h l,
  recent_enough window now t w h l,
)

log_refusal_sets :
    (window now : ℤ) (key : String) (last : List (String × ℤ))
    → pos 0 <ℤ window
    → (log_refusal window now key last).1 ≡ true
    → lookup key (log_refusal window now key last).0 ≡ some now
unfolding log_refusal
log_refusal_sets window now key last w e = ground (
  arith,
  eq_iff key key,
  lookup-insert key key now last,
  lookup-prune window now key now (insert key now last),
  recent_enough window now now (omega arith) (omega arith) (omega int_laws),
)

log_all_keeps :
    (window t : ℤ) (key : String) (refusals last : List (String × ℤ))
    → pos 0 <ℤ window
    → AllWithin window t refusals
    → lookup key last ≡ some t
    → lookup key (log_all window refusals last) ≡ some t
unfolding log_all
log_all_keeps window t key [] last w h e = e
log_all_keeps window t key ((k, now) ∷ rest) last w h e =
    log_all_keeps window t key rest (log_refusal window now k last).0 w h.2
      (log_refusal_keeps window now t key k last (omega arith) h.0 h.1 e)

log_refusal_recent :
    (window now t : ℤ) (key : String) (last : List (String × ℤ))
    → lookup key last ≡ some t
    → ltb_ℤ (now -ℤ t) window ≡ true
    → (log_refusal window now key last).1 ≡ false
unfolding log_refusal
log_refusal_recent window now t key last e h = ground arith

-- A refusal that was logged at `t` is not logged again within the window, whatever other refusals,
-- of its own shape too, come between, each at a time in the window: pruning forgets none too soon.
pub log_refusal_once :
    (window t now : ℤ) (key : String) (refusals last : List (String × ℤ))
    → pos 0 <ℤ window
    → (log_refusal window t key last).1 ≡ true
    → AllWithin window t refusals
    → t ≤ℤ now
    → now <ℤ t +ℤ window
    → let last' = log_all window refusals (log_refusal window t key last).0 in
      (log_refusal window now key last').1 ≡ false
log_refusal_once window t now key refusals last w e h l u =
    log_refusal_recent window now t key _
      (log_all_keeps window t key refusals _ w h (log_refusal_sets window t key last w e))
      (recent window now t l u)
