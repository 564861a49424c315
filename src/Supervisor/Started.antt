-- ===== src/Supervisor/Started.antt =====
-- What a start of internal/sim/gridlabd/supervisor.go launches and waits for.
use ieee_2030_5_client_go.Shared.{
  ℕ, ◌+◌, ◌≡◌, refl, sym, Bool, true, false, List, ◌∷◌, [], ◌++◌, Option, none, some, str_eq, ◌==◌,
  count_if, count_if-append, arith, Bool-cases, inl, inr,
}
use ieee_2030_5_client_go.Supervisor.{
  SupervisorConfig, StartError, launch_failed, socket_failed, exited_during_start, hello_failed,
  wrong_protocol, wrong_fleet, Action, launch, reap,
}
use ieee_2030_5_client_go.Supervisor.Start.{
  Tick, ctx_expired, process_exited, ticked, Round, Hello, StartInput, protocol_version, after_tick,
  wait_for_socket, check_hello, after_socket, after_launch, start_once, kill_and_reap,
}

abbrev pub is_launch : Action → Bool
is_launch launch = true
is_launch _ = false

abbrev pub is_reap : Action → Bool
is_reap reap = true
is_reap _ = false

abbrev pub launches : List Action → ℕ
launches acts = count_if is_launch acts

abbrev pub reaps : List Action → ℕ
reaps acts = count_if is_reap acts

-- What a start leaves running.
abbrev pub live : Option StartError → ℕ
live none = 1
live (some e) = 0

-- What waitForSocket has received from Wait.
abbrev drained : Option StartError → ℕ
drained (some exited_during_start) = 1
drained _ = 0

IsDrained : Option (Option StartError × List Action) → Type 0
IsDrained none = Unit
IsDrained (some (err, acts)) = (launches acts ≡ 0) × (reaps acts ≡ drained err)

after_tick-IsDrained :
    (t : Tick) (later : Option (Option StartError × List Action))
    → IsDrained later
    → IsDrained (after_tick t later)
unfolding after_tick IsDrained
after_tick-IsDrained ctx_expired later h = (refl, refl)
after_tick-IsDrained process_exited later h = (refl, refl)
after_tick-IsDrained ticked later h = h

wait_for_socket-IsDrained : (rounds : List Round) → IsDrained (wait_for_socket rounds)
unfolding wait_for_socket IsDrained
wait_for_socket-IsDrained [] = tt
wait_for_socket-IsDrained (r ∷ rs) = elim (Bool-cases r.dialed) [
  | inr d ↦ rw d (after_tick-IsDrained r.tick _ (wait_for_socket-IsDrained rs))
  | inl d ↦ elim (Bool-cases r.peer_is_process) [
    | inl p ↦ rw (d, p) (refl, refl)
    | inr p ↦ rw (d, p) (refl, refl)
  ]
]

check_hello_lem :
    (cfg : SupervisorConfig) (hello : Option Hello)
    → (launches (check_hello cfg hello).1 ≡ 0)
      × (reaps (check_hello cfg hello).1 + live (check_hello cfg hello).0 ≡ 1)
unfolding check_hello
check_hello_lem cfg none = (refl, refl)
check_hello_lem cfg (some h) = elim (Bool-cases (h.protocol == protocol_version)) [
  | inr e ↦ rw e (refl, refl)
  | inl e ↦ elim (Bool-cases (str_eq h.fleet cfg.fleet)) [
    | inr f ↦ rw (e, f) (refl, refl)
    | inl f ↦ rw (e, f) (refl, refl)
  ]
]

reaped :
    (acts : List Action)
    → launches acts ≡ 0
    → reaps acts ≡ 0
    → (launches (acts ++ kill_and_reap) ≡ 0) × (reaps (acts ++ kill_and_reap) + 0 ≡ 1)
reaped acts l r = (
  rw (count_if-append is_launch acts kill_and_reap, l) refl,
  rw (count_if-append is_reap acts kill_and_reap, r) refl,
)

after_socket_lem :
    (cfg : SupervisorConfig) (hello : Option Hello) (err : Option StartError) (acts : List Action)
    → launches acts ≡ 0
    → reaps acts ≡ drained err
    → (launches (after_socket cfg hello (err, acts)).1 ≡ 0)
      × (reaps (after_socket cfg hello (err, acts)).1 + live (after_socket cfg hello (err, acts)).0
          ≡ 1)
unfolding after_socket
after_socket_lem cfg hello (some exited_during_start) acts l r = (l, rw r refl)
after_socket_lem cfg hello (some launch_failed) acts l r = reaped acts l r
after_socket_lem cfg hello (some socket_failed) acts l r = reaped acts l r
after_socket_lem cfg hello (some hello_failed) acts l r = reaped acts l r
after_socket_lem cfg hello (some wrong_protocol) acts l r = reaped acts l r
after_socket_lem cfg hello (some wrong_fleet) acts l r = reaped acts l r
after_socket_lem cfg hello none acts l r =
    let (m, s) = check_hello_lem cfg hello in
    let more = (check_hello cfg hello).1 in
    (
      rw (count_if-append is_launch acts more, l, m) refl,
      ground (arith, count_if-append is_reap acts more, r, s),
    )

-- A start that fails has received from Wait once for each launch, and one that succeeds leaves one
-- process running.
unfoldable pub IsBalanced : Option (Option StartError × List Action) → Type 0
IsBalanced none = Unit
IsBalanced (some (err, acts)) = launches acts ≡ reaps acts + live err

after_launch-IsBalanced :
    (cfg : SupervisorConfig) (hello : Option Hello)
    (waited : Option (Option StartError × List Action))
    → IsDrained waited
    → IsBalanced (after_launch cfg hello waited)
unfolding after_launch IsDrained IsBalanced
after_launch-IsBalanced cfg hello none h = tt
after_launch-IsBalanced cfg hello (some (err, acts)) (l, r) =
    let (m, s) = after_socket_lem cfg hello err acts l r in rw m (sym s)

pub start_once-IsBalanced :
    (cfg : SupervisorConfig) (i : StartInput) → IsBalanced (start_once cfg i)
unfolding start_once IsBalanced
start_once-IsBalanced cfg i = elim (Bool-cases i.launched) [
  | inl e ↦ rw e (after_launch-IsBalanced cfg i.hello _ (wait_for_socket-IsDrained i.rounds))
  | inr e ↦ rw e refl
]
