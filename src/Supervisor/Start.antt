-- ===== src/Supervisor/Start.antt =====
-- The start and the end of a sidecar, in internal/sim/gridlabd/supervisor.go: startOnce, abortStart,
-- waitForSocket, shutdown and killAndReap, with what they do to the process and the socket.
use ieee_2030_5_client_go.Shared.{
  ℕ, Bool, not, List, [], ◌∷◌, ◌++◌, Option, none, some, String, str_eq, ◌==◌, if◌then◌else◌,
}
use ieee_2030_5_client_go.Supervisor.{
  SupervisorConfig, StartError, launch_failed, socket_failed, exited_during_start, hello_failed,
  wrong_protocol, wrong_fleet, Action, remove_socket, launch, kill, reap, close_client,
  ask_shutdown, terminate,
}

-- What the select at the end of a round of waitForSocket gives.
pub data Tick : Type 0 where
  ctx_expired process_exited ticked : Tick

-- A round of waitForSocket: whether the socket is there and takes the dial, whether the peer is the
-- process, and the select.
pub record Round : Type 0 where
  pub dialed : Bool
  pub peer_is_process : Bool
  pub tick : Tick

-- The answer to hello.
pub record Hello : Type 0 where
  pub protocol : ℕ
  pub fleet : String

-- ProtocolVersion.
abbrev pub protocol_version : ℕ
protocol_version = 1

-- What a start meets: whether the launch succeeds, the rounds, and the answer to hello or its error.
pub record StartInput : Type 0 where
  pub launched : Bool
  pub rounds : List Round
  pub hello : Option Hello

abbrev pub kill_and_reap : List Action
kill_and_reap = kill ∷ (reap ∷ [])

-- What has come of waitForSocket: its error, or none with a connection, and what it has done. It has
-- not returned where the rounds run out.
unfoldable pub after_tick :
    Tick → Option (Option StartError × List Action) → Option (Option StartError × List Action)
after_tick ctx_expired later = some (some socket_failed, [])
after_tick process_exited later = some (some exited_during_start, reap ∷ [])
after_tick ticked later = later

-- waitForSocket.
unfoldable pub wait_for_socket : List Round → Option (Option StartError × List Action)
wait_for_socket [] = none
wait_for_socket (r ∷ rs) =
    let later = wait_for_socket rs in
    if r.dialed
    then (if r.peer_is_process
        then some (none, [])
        else some (some socket_failed, close_client ∷ []))
    else after_tick r.tick later

-- abortStart.
abbrev abort_start : StartError → Option StartError × List Action
abort_start e = (some e, close_client ∷ kill_and_reap)

-- startOnce, from the answer to hello.
unfoldable pub check_hello : SupervisorConfig → Option Hello → Option StartError × List Action
check_hello cfg none = abort_start hello_failed
check_hello cfg (some h) =
    if not (h.protocol == protocol_version)
    then abort_start wrong_protocol
    else if not (str_eq h.fleet cfg.fleet)
    then abort_start wrong_fleet
    else (none, [])

-- startOnce, from the end of waitForSocket.
unfoldable pub after_socket :
    SupervisorConfig
    → Option Hello
    → Option StartError × List Action
    → Option StartError × List Action
after_socket cfg hello (some exited_during_start, acts) = (some exited_during_start, acts)
after_socket cfg hello (some e, acts) = (some e, acts ++ kill_and_reap)
after_socket cfg hello (none, acts) = let (err, more) = check_hello cfg hello in (err, acts ++ more)

-- startOnce, of a process that was launched.
unfoldable pub after_launch :
    SupervisorConfig
    → Option Hello
    → Option (Option StartError × List Action)
    → Option (Option StartError × List Action)
after_launch cfg hello none = none
after_launch cfg hello (some waited) =
    let (err, acts) = after_socket cfg hello waited in some (err, remove_socket ∷ (launch ∷ acts))

-- startOnce.
unfoldable pub start_once : SupervisorConfig → StartInput → Option (Option StartError × List Action)
start_once cfg i =
    if i.launched
    then after_launch cfg i.hello (wait_for_socket i.rounds)
    else some (some launch_failed, remove_socket ∷ [])

-- shutdown of a sidecar that is up: `first` and `second` are what waitOrTimeout gives before and
-- after SIGTERM.
unfoldable pub shutdown : Bool → Bool → List Action
shutdown first second =
    ask_shutdown
    ∷ (close_client
        ∷ (if first
            then reap ∷ (remove_socket ∷ [])
            else terminate
              ∷ (if second
                  then reap ∷ (remove_socket ∷ [])
                  else kill_and_reap ++ (remove_socket ∷ []))))
