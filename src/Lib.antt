-- ===== src/Lib.antt =====
-- A verification development for the IEEE 2030.5 client in Go: the part that decides which DER
-- control is in force, which requests may leave the process, what is written to a device and what is
-- answered to the server.
--
-- The client polls a list of DERControl events, or is notified of it. A cache keeps the last list and
-- tells what changed. Added and cancelled events go to the state machine, which passes them on to a
-- scheduler, a queue sorted by fire time; each Tick takes the due events off the queue and moves the
-- machine through DEFAULT, EVENT_RECEIVED, EVENT_STARTED and the terminal states. Its hooks see each
-- transition; one of them posts a Response to the server, with retries. What a control asks for is
-- written to the device behind five guards. Every request of the process passes a guard that knows
-- the role of the process.
--
-- On a signal the aggregator asks the server for a flow reservation, polls for the answer and lets its
-- batteries be dispatched within the grant. In the co-simulation each fleet has a simulator process
-- that a supervisor starts, watches, starts again within a budget, and ends; a client speaks with it
-- over one connection. For each device that it manages the aggregator has a session, which looks for
-- the program to follow, polls its controls into a cache and a state machine of its own, and turns to
-- another program when the server says so.
--
-- The files, and the code they model:
--
--   Scheduler     internal/inverter/scheduler.go: Scheduler and its operations under the code's
--                 names in snake case; split_expired, remove_all and add_events are its loops.
--                 Window is about the random windows, Queue about the entries of each mRID, Order
--                 about the order of the queue.
--   StateMachine  internal/inverter/statemachine.go: the machine and its transitions. Passes has one
--                 function for each step of computeTransitionsLocked, Tick composes them and has
--                 Reject. Lifecycle, Invariant, Idle, Refusal, Withdrawal, Liveness, Collision,
--                 Stranding and Quiet prove what a pass does, Trace what any calls do.
--   ControlCache  internal/inverter/dercontrol_poll.go: the cache and its Diff and Refresh.
--                 Polling is the loop around it.
--   RequestGuard  internal/inverter/guard/guard.go, with Permitted, the closed list of actions as
--                 relations, and Policy; RefusalLog is its bounded log. Guarded is
--                 internal/inverter/guard/guarded.go.
--   SafetyGuard   internal/inverter/device/guards.go: Bucket is about its token bucket, Setpoint has
--                 ReadState and ApplySetpoint, Clamped is about them.
--   Responses     cmd/inverterclient/response_hook.go, with Hooked; Retry is
--                 internal/inverter/response_retry.go, with RetryBound.
--   LogEventLimiter  internal/inverter/log_event_ratelimiter.go, with Spacing.
--   Reservation   cmd/inverterclient/reservation_logic.go and reservation.go. Encoding and Request build
--                 a request, with Encoded and Requested about them; Answer judges the answer, with
--                 Newest and Granted. Reserver is the state, Withdrawing has Trigger, Withdraw and
--                 the retried withdrawals, Reading has Poll; Sequence makes any of these calls in any
--                 order. Withdrawn, Installed, Followed and Backoff prove what they keep up.
--   Supervisor    internal/sim/gridlabd/supervisor.go: its state and the changes of it. Start has
--                 startOnce, waitForSocket and shutdown, Run is Run and Stop as a step relation.
--                 Health, Started, Reaped, Stopping, Backoff and Budget are about them.
--   SidecarClient internal/sim/gridlabd/client.go and protocol.go: call and what it is made of, over a
--                 pipe with the replies not yet read; Operations has Hello, Set, Get, StepTo and
--                 Shutdown. Sync, Served, Stopped, Cancelled and Items are about them.
--   FleetDevice   internal/inverter/device/fleet.go: ReadState and ApplySetpoint with the resync after
--                 a restart. Commanded, Retold, Applied and Kept are about them.
--   Session       The control session of a managed device: cmd/inverterclient/managed_controls.go,
--                 diffSnapshots and stepEvents of main.go, ActiveControlBase of
--                 internal/inverter/applycontrols_base.go. Programs is internal/inverter/select.go,
--                 Walk the search for a program, Follow the session as a step relation. Snapshots,
--                 Backed, Lives, Selected, Readable, Offered, Entered, Assigned and Chosen are about
--                 them.
--   AlarmDetector internal/inverter/alarm_detector.go, with Edges; RideThrough has the trip curves that it
--                 reads, and the ride-through states, of internal/inverter/ridethrough.go, with Tripped.
--   Dispatch      internal/inverter/dispatch/simulator.go and production.go, and the registry of
--                 cmd/inverterclient/subscription_registry.go, with Routed.
--   Sep2          the message types of the core library that these read.
--   Shared        library names and lemmas in common: tests, lists, integers, maps and
--                 float64 as far as signs, comparisons and rounding to a whole number go.
--   Examples      a platform that meets the laws of the parameters, the theorems applied at concrete
--                 inputs, and tests.
--
-- Instants and durations are unbounded integers, in nanoseconds; a wrap of int64 is not modelled. A
-- pointer is an option, a map an association list, a method a function from the state before to the
-- state after. A float64 is NaN, an infinity or a multiple of the least positive one, and its
-- rounding product with a constant is a parameter. The loop of activePower takes fuel, twelve divisions
-- by ten, which is enough for the 10 ^ 12 that it is given at most; every other loop is over a list or
-- counts attempts down. A select between channels is a choice of steps, and a step takes what a call
-- gives as its input. Requests that two pointers share are numbers into a heap.
--
-- Parameters: Platform of the scheduler has the random source and sort.Slice, with the laws that
-- Int64N stays below its bound and that the sort gives an ordered permutation. Casing has ToUpper and
-- EqualFold of the package strings. The transport behind the guard, the wrapped device, the poster
-- and the clock of the retry, and the texts and the SHA-256 of the response hook are functions without
-- laws, but for the sign of the product with defaultScaleMultiplier. Client of the reserver has the SEP2
-- client, the clock, the request file and the value of an encoded quantity, as functions over one
-- world without laws. Numerics of the alarm detector has the float64 subtraction and quotient and the
-- formatting of a number, and its emitter is a function over a world. Link of the sidecar client has
-- the lines of the wire, encoding/json and the sidecar, Codec the decoders of the results; that the
-- sidecar answers every request is a hypothesis of the theorem that a call gets its answer. Server of
-- the session has what each GET answers. Transport of the fleet device has the sidecar behind it, with
-- the laws that a step and a read leave a setpoint alone and a write that succeeds sets it, while
-- the sidecar is not started again. The fetch of
-- a list and the functions of the package strings are parameters of the dispatch.
--
-- Not modelled: locks, since each modelled method holds its lock from start to end, or, in the state
-- machine, until its hooks; log lines and the texts of errors; the requests over HTTP and TLS, XML,
-- the receiver of notifications, the setpoint mathematics in floating point, the split of a grant over the
-- batteries, the operator's page, flags and start-up, and the protocol of the co-simulation under sim
-- and internal/sim.
pub mod Shared
pub mod Sep2
pub mod Scheduler
pub mod StateMachine
pub mod ControlCache
pub mod RequestGuard
pub mod SafetyGuard
pub mod Responses
pub mod LogEventLimiter
pub mod Reservation
pub mod Session
pub mod SidecarClient
pub mod Supervisor
pub mod FleetDevice
pub mod RideThrough
pub mod AlarmDetector
pub mod Dispatch
mod Examples
