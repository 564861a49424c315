-- ===== src/Session/Follow.antt =====
-- runControls and followProgram of cmd/inverterclient/managed_controls.go: the state of a session and
-- its steps. What a GET gives is an option, with the href that a redirect moved it to, or "".
use ieee_2030_5_client_go.Shared.{
  ℕ, suc, ◌≡◌, Bool, false, not, List, [], Option, none, some, String, str_eq, if◌then◌else◌, ℤ,
}
use ieee_2030_5_client_go.Scheduler.{Platform, Scheduler, new_scheduler}
use ieee_2030_5_client_go.ControlCache.{Cache, ListResult, new_cache, refresh}
use ieee_2030_5_client_go.StateMachine.{Machine, Call, new_state_machine, set_validator, Validator}
use ieee_2030_5_client_go.StateMachine.Tick.{tick}
use ieee_2030_5_client_go.Session.{Controls, DefaultControl, diff_snapshots, step_events}
use ieee_2030_5_client_go.Session.Programs.{Program, link_href}
use ieee_2030_5_client_go.Session.Walk.{
  Server, answers, fails, ProgramWalk, walk_programs, Moved, stays, gone, replaced, outcome,
  program_moved,
}

-- What one cycle of step reads, and when.
pub record Reads (Base : Type 0) : Type 0 where
  pub now : ℤ
  pub default_read : Option (DefaultControl Base × String)
  pub list_read : Option (ListResult × String)

moved_href : String → String → String
moved_href href new_href = if not (str_eq new_href "") then new_href else href

superseded_by : Program → Option Program → Bool
superseded_by prog none = false
superseded_by prog (some next) = not (str_eq next.mrid prog.mrid)

module _ (p : Platform) where
  -- The variables of followProgram.
  pub record Following : Type 0 where
    pub prog : Program
    pub sched : Scheduler p
    pub cache : Cache
    pub prev : Controls
    pub href : String
    pub default_href : String

  -- Where runControls stands: in discoverProgram after some failures, before followProgram, or in it.
  pub data Phase : Type 0 where
    discovering : ℕ → Phase
    starting : Program → Phase
    following : Following → Phase

  -- The start of followProgram.
  unfoldable pub begin_following : p.Rng → Program → Following
  begin_following rng prog = record {
    prog = prog;
    sched = new_scheduler p rng;
    cache = new_cache;
    prev = new_cache.controls;
    href = link_href prog.control_list_link;
    default_href = link_href prog.default_link;
  }

  unfoldable pub next_phase : Option Program → Phase
  next_phase none = discovering 0
  next_phase (some prog) = starting prog

module _ (p : Platform) (Base : Type 0) where
  -- controlSession: the machine, the default control, and where the session stands.
  pub record Session : Type 0 where
    pub sm : Machine
    pub default_ctl : Option (DefaultControl Base)
    pub phase : Phase p

  -- newControlSession, with the validator that runControls sets.
  unfoldable pub new_session : Option Validator → Session
  new_session validate = record {
    sm = set_validator new_state_machine validate;
    default_ctl = none;
    phase = discovering 0;
  }

  -- The read of the default control in step.
  unfoldable pub take_default :
      Option (DefaultControl Base × String) → Following p → Session → Following p × Session
  unfolding moved_href
  take_default none f s = (f, s)
  take_default (some (ddc, new_href)) f s = (
    record f { default_href = moved_href f.default_href new_href },
    record s { default_ctl = some ddc },
  )

  unfoldable pub read_default :
      Option (DefaultControl Base × String) → Following p → Session → Following p × Session
  unfolding take_default
  read_default r f s = if not (str_eq f.default_href "") then take_default r f s else (f, s)

  -- The read of the control list in step, and what the machine makes of it.
  unfoldable pub read_list :
      ℤ → Option (ListResult × String) → Following p → Session → Session × List Call
  unfolding moved_href
  read_list now none f s =
      let (sm, sched, calls) = tick p now [] [] s.sm f.sched in
      (record s { sm = sm; phase = following (record f { sched = sched }) }, calls)
  read_list now (some (list, new_href)) f s =
      let (cache, _) = refresh f.cache list in
      let (sm, sched, calls, prev) = step_events p now cache f.prev s.sm f.sched in
      (
        record s {
          sm = sm;
          phase = following (record f {
            sched = sched;
            cache = cache;
            prev = prev;
            href = moved_href f.href new_href;
          });
        },
        calls,
      )

  -- One cycle of step.
  unfoldable pub follow_step : Reads Base → Following p → Session → Session × List Call
  unfolding read_default read_list
  follow_step r f s =
      let (f', s') = read_default r.default_read f s in read_list r.now r.list_read f' s'

  -- The end of followProgram, where the program is gone or replaced: the session, the calls of the
  -- hook, and whether they stand for a program that another one supersedes.
  unfoldable pub drop_program :
      ℤ → Option Program → Following p → Session → Session × List Call × Bool
  unfolding next_phase superseded_by
  drop_program now replacement f s =
      let (_, dropped) = diff_snapshots f.prev [] in
      let (sm, _, calls) = tick p now [] dropped s.sm f.sched in
      (
        record s { sm = sm; default_ctl = none; phase = next_phase p replacement },
        calls,
        superseded_by f.prog replacement,
      )

  unfoldable pub after_walk : ℤ → Moved → Following p → Session → Session
  unfolding drop_program
  after_walk now stays f s = s
  after_walk now gone f s = (drop_program now none f s).0
  after_walk now (replaced next) f s = (drop_program now (some next) f s).0

  -- A re-walk in followProgram.
  unfoldable pub rewalk : ℤ → Option ProgramWalk → Following p → Session → Session
  unfolding after_walk
  rewalk now w f s = after_walk now (program_moved f.prog w) f s

  -- A step of the session: a walk of discoverProgram that fails, finds no program, or finds one; the
  -- first cycle and a later cycle of step; and a re-walk. The FSA link of the device and its
  -- strictness are whatever they are then.
  pub data SessionStep : Session → Session → Type 0 where
    walk_fails :
        {s : Session} (n : ℕ) (strict : Bool) (svs : List Server) (link : Option String)
        → s.phase ≡ discovering n
        → walk_programs strict svs link ≡ fails
        → SessionStep s (record s { phase = discovering (suc n) })
    finds_none :
        {s : Session} (n : ℕ) (strict : Bool) (svs left : List Server) (link : Option String)
        (w : ProgramWalk)
        → s.phase ≡ discovering n
        → walk_programs strict svs link ≡ answers w left
        → w.prog ≡ none
        → SessionStep s s
    finds :
        {s : Session} (n : ℕ) (strict : Bool) (svs left : List Server) (link : Option String)
        (w : ProgramWalk) (prog : Program)
        → s.phase ≡ discovering n
        → walk_programs strict svs link ≡ answers w left
        → w.prog ≡ some prog
        → SessionStep s (record s { phase = starting prog })
    begins :
        {s : Session} (prog : Program) (rng : p.Rng) (r : Reads Base)
        → s.phase ≡ starting prog
        → SessionStep s (follow_step r (begin_following p rng prog) s).0
    polls :
        {s : Session} (f : Following p) (r : Reads Base)
        → s.phase ≡ following f
        → SessionStep s (follow_step r f s).0
    rewalks :
        {s : Session} (f : Following p) (now : ℤ) (svs : List Server) (link : Option String)
        (w : Option ProgramWalk)
        → s.phase ≡ following f
        → outcome (walk_programs false svs link) ≡ some w
        → SessionStep s (rewalk now w f s)

  pub data SessionReaches (s : Session) : Session → Type 0 where
    at_once : SessionReaches s s
    then_on : {t u : Session} → SessionReaches s t → SessionStep t u → SessionReaches s u
