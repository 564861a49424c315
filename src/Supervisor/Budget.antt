-- ===== src/Supervisor/Budget.antt =====
-- The restart budget of internal/sim/gridlabd/supervisor.go, over all the restarts that Run makes.
use ieee_2030_5_client_go.Shared.{
  ℕ, suc, ◌≤◌, ◌≡◌, refl, sym, ◌∙◌, subst, Bool, false, ◌||◌, List, [], ◌∷◌, ◌++◌, length, count_if,
  count_if-append, ℤ, pos, ◌-ℤ◌, ◌≤ℤ◌, ltb_ℤ, ltb_ℤ→lt, Option, none, some, int_laws, arith,
  Bool-cases, inl, inr, if◌then◌else◌,
}
use ieee_2030_5_client_go.Supervisor.{
  SupervisorConfig, StartError, Supervisor, Phase, new_supervisor, prune_restarts, mark_started,
  set_up, set_restarting, set_down, set_stopped,
}
use ieee_2030_5_client_go.Supervisor.Run.{
  RunStep, ctx_cancel, stop, run, begin, first_start, asked, exited, broken, restart, ended,
  interrupted, woken, Reaches, here, and_then, stop_now, begin_run, after_first, after_restart,
  try_restart, exit_during_restart, act,
}

abbrev pub later_than : ℤ → ℤ → Bool
later_than c t = ltb_ℤ c t

prune_restarts-count :
    (now window c : ℤ) (ts : List ℤ)
    → (now -ℤ window) ≤ℤ c
    → count_if (later_than c) (prune_restarts now window ts) ≡ count_if (later_than c) ts
unfolding prune_restarts
prune_restarts-count now window c [] h = refl
prune_restarts-count now window c (t ∷ ts) h = elim (Bool-cases (ltb_ℤ (now -ℤ window) t)) [
  | inl e ↦ rw (e, prune_restarts-count now window c ts h) refl
  | inr e ↦
      let not_later : ltb_ℤ c t ≡ false = ground (arith, h, e) in
      rw (e, not_later) (prune_restarts-count now window c ts h)
]

-- The attempts that are later than `c`.
abbrev pub counted : ℤ → List ℤ → ℕ
counted c ts = count_if (later_than c) ts

count_le : (c : ℤ) (ts : List ℤ) → counted c ts ≤ length ts
count_le c [] = omega arith
count_le c (t ∷ ts) = ground (arith, count_le c ts)

prune_restarts-length :
    (now window : ℤ) (ts : List ℤ) → length (prune_restarts now window ts) ≤ length ts
unfolding prune_restarts
prune_restarts-length now window [] = omega arith
prune_restarts-length now window (t ∷ ts) = ground (arith, prune_restarts-length now window ts)

length_snoc : (ts : List ℤ) (t : ℤ) → length (ts ++ (t ∷ [])) ≡ suc (length ts)
length_snoc [] t = refl
length_snoc (u ∷ ts) t = rw (length_snoc ts t) refl

-- The time of the restart that a step begins, if it begins one.
abbrev attempt_of : (cfg : SupervisorConfig) (s u : Supervisor) → RunStep cfg s u → List ℤ
attempt_of cfg s _ (restart now then_now e f) =
    if ltb_ℤ (pos (length (prune_restarts now cfg.restart_window s.restarts))) cfg.max_restarts
    then then_now ∷ []
    else []
attempt_of cfg s _ _ = []

-- The times of the restarts that Run has begun on the way to a state.
abbrev pub attempts :
    (cfg : SupervisorConfig) (u : Supervisor) → Reaches cfg new_supervisor u → List ℤ
attempts cfg _ here = []
attempts cfg u (and_then {t} r (run p)) = attempts cfg t r ++ attempt_of cfg t u p
attempts cfg u (and_then {t} r ctx_cancel) = attempts cfg t r
attempts cfg u (and_then {t} r stop) = attempts cfg t r

abbrev StepReadBy : ℤ → (cfg : SupervisorConfig) (s u : Supervisor) → RunStep cfg s u → Type 0
StepReadBy c cfg s _ (restart now then_now e f) = (now -ℤ cfg.restart_window) ≤ℤ c
StepReadBy c cfg s _ _ = Unit

-- No round of the restart loop has read the clock later than the restart window after `c`.
abbrev pub ReadBy :
    ℤ → (cfg : SupervisorConfig) (u : Supervisor) → Reaches cfg new_supervisor u → Type 0
ReadBy c cfg _ here = Unit
ReadBy c cfg u (and_then {t} r (run p)) = ReadBy c cfg t r × StepReadBy c cfg t u p
ReadBy c cfg u (and_then {t} r ctx_cancel) = ReadBy c cfg t r
ReadBy c cfg u (and_then {t} r stop) = ReadBy c cfg t r

-- What the restarts in the state say of those that have been begun.
abbrev Tallied : ℤ → SupervisorConfig → List ℤ → List ℤ → Type 0
Tallied c cfg kept ts = (counted c ts ≡ counted c kept) × (pos (length kept) ≤ℤ cfg.max_restarts)

same_tally :
    (c : ℤ) (cfg : SupervisorConfig) (rs us ts : List ℤ)
    → us ≡ rs
    → Tallied c cfg rs ts
    → Tallied c cfg us (ts ++ [])
same_tally c cfg rs us ts e (h, k) =
    (rw (e, count_if-append (later_than c) ts []) (omega (arith, h)), rw e k)

first_restarts :
    (err : Option StartError) (s : Supervisor) → (after_first err s).restarts ≡ s.restarts
unfolding after_first mark_started set_up set_down set_stopped
first_restarts none s = refl
first_restarts (some e) s = elim (Bool-cases s.ctx_done) [ inl d ↦ rw d refl | inr d ↦ rw d refl ]

restart_restarts :
    (err : Option StartError) (s : Supervisor) → (after_restart err s).restarts ≡ s.restarts
unfolding after_restart set_up
restart_restarts none s = refl
restart_restarts (some e) s = refl

begin_restarts : (s : Supervisor) → (begin_run s).restarts ≡ s.restarts
unfolding begin_run mark_started
begin_restarts s = elim (Bool-cases s.stopped) [ inl e ↦ rw e refl | inr e ↦ rw e refl ]

stop_restarts : (s : Supervisor) → (stop_now s).restarts ≡ s.restarts
unfolding stop_now
stop_restarts s = elim (Bool-cases s.started) [ inl e ↦ rw e refl | inr e ↦ rw e refl ]

module _ (c : ℤ) (cfg : SupervisorConfig) where
  try_tally :
      (s : Supervisor) (ts : List ℤ) (now then_now : ℤ) (e : s.phase ≡ Phase.checking)
      (f : (s.ctx_done || s.stop_closed) ≡ false)
      → (now -ℤ cfg.restart_window) ≤ℤ c
      → Tallied c cfg s.restarts ts
      → Tallied c cfg
          (try_restart cfg now then_now s).restarts
          (ts ++ attempt_of cfg s (try_restart cfg now then_now s) (restart now then_now e f))
  unfolding try_restart set_down
  try_tally s ts now then_now e f r (h, k) =
      let kept = prune_restarts now cfg.restart_window s.restarts in
      let same = prune_restarts-count now cfg.restart_window c s.restarts r in
      let shorter = prune_restarts-length now cfg.restart_window s.restarts in
      elim (Bool-cases (ltb_ℤ (pos (length kept)) cfg.max_restarts)) [
        | inl g ↦
            let room = ltb_ℤ→lt (pos (length kept)) cfg.max_restarts g in
            rw g (
              rw
                  (
                    count_if-append (later_than c) ts (then_now ∷ []),
                    count_if-append (later_than c) kept (then_now ∷ []),
                    same,
                    h,
                  )
                  refl,
              rw (length_snoc kept then_now) (omega (int_laws, room)),
            )
        | inr g ↦
            rw g (same_tally c cfg kept kept ts refl (h ∙ sym same, omega (int_laws, shorter, k)))
      ]

  run_tally :
      (s u : Supervisor) (ts : List ℤ) (p : RunStep cfg s u)
      → StepReadBy c cfg s u p
      → Tallied c cfg s.restarts ts
      → Tallied c cfg u.restarts (ts ++ attempt_of cfg s u p)
  unfolding exit_during_restart set_restarting set_stopped
  run_tally s _ ts (begin e) r h = same_tally c cfg s.restarts _ ts (begin_restarts s) h
  run_tally s _ ts (first_start i err acts e f) r h =
      same_tally c cfg s.restarts _ ts (first_restarts err (act acts s)) h
  run_tally s _ ts (asked d first second e f) r h = same_tally c cfg s.restarts _ ts refl h
  run_tally s _ ts (exited e) r h = same_tally c cfg s.restarts _ ts refl h
  run_tally s _ ts (broken e) r h = same_tally c cfg s.restarts _ ts refl h
  run_tally s _ ts (restart now then_now e f) r h = try_tally s ts now then_now e f r h
  run_tally s _ ts (ended d e f) r h = same_tally c cfg s.restarts _ ts refl h
  run_tally s _ ts (interrupted d k e f) r h = same_tally c cfg s.restarts _ ts refl h
  run_tally s _ ts (woken d i err acts e f) r h =
      same_tally c cfg s.restarts _ ts (restart_restarts err (act acts s)) h

  reaches_tally :
      (u : Supervisor) (r : Reaches cfg new_supervisor u)
      → pos 0 ≤ℤ cfg.max_restarts
      → ReadBy c cfg u r
      → Tallied c cfg u.restarts (attempts cfg u r)
  unfolding new_supervisor
  reaches_tally _ here n h = (refl, n)
  reaches_tally u (and_then {t} r (run p)) n (h, k) =
      run_tally t u (attempts cfg t r) p k (reaches_tally t r n h)
  reaches_tally _ (and_then {t} r ctx_cancel) n h = reaches_tally t r n h
  reaches_tally _ (and_then {t} r stop) n h =
      subst (λ rs. Tallied c cfg rs (attempts cfg t r)) (sym (stop_restarts t))
        (reaches_tally t r n h)

-- Of the restarts that Run has begun on the way to a state, no more than max_restarts are later than a
-- time `c`, if no round of the restart loop has read the clock later than the restart window after
-- `c`, and max_restarts is not negative.
pub attempts-bound :
    (c : ℤ) (cfg : SupervisorConfig) (u : Supervisor) (r : Reaches cfg new_supervisor u)
    → pos 0 ≤ℤ cfg.max_restarts
    → ReadBy c cfg u r
    → pos (counted c (attempts cfg u r)) ≤ℤ cfg.max_restarts
attempts-bound c cfg u r n h =
    let (same, short) = reaches_tally c cfg u r n h in
    omega (int_laws, same, count_le c u.restarts, short)
