-- ===== src/Session/Lives.antt =====
-- runControls of cmd/inverterclient/managed_controls.go over its whole life: what drives the device.
use ieee_2030_5_client_go.Shared.{
  ◌≡◌, refl, sym, ◌∙◌, true, false, not, [], Option, none, some, String, str_eq, arith, ℤ,
  if◌then◌else◌, ap, subst,
}
use ieee_2030_5_client_go.Sep2.{DerControl}
use ieee_2030_5_client_go.Scheduler.{Platform, new_scheduler}
use ieee_2030_5_client_go.Scheduler.Queue.{occurs}
use ieee_2030_5_client_go.ControlCache.{ListResult, new_cache, refresh}
use ieee_2030_5_client_go.StateMachine.{
  EventState, Machine, is_default, default, event_started, Validator, new_state_machine,
  set_validator, current,
}
use ieee_2030_5_client_go.StateMachine.Tick.{tick}
use ieee_2030_5_client_go.StateMachine.Invariant.{IsResting, Rests, new_state_machine-IsResting}
use ieee_2030_5_client_go.StateMachine.Trace.{new_scheduler-IsQueue}
use ieee_2030_5_client_go.Session.{DefaultControl, diff_snapshots, changed_in, session_base}
use ieee_2030_5_client_go.Session.Programs.{Program}
use ieee_2030_5_client_go.Session.Walk.{Moved, stays, gone, replaced, program_moved}
use ieee_2030_5_client_go.Session.Snapshots.{IsKeyed, is_standing, refresh-IsKeyed}
use ieee_2030_5_client_go.Session.Backed.{
  IsBacked, diff-IsBacked, idle_pass-IsBacked, step_events-IsBacked, IsBacked-state, IsBacked-live,
}
use ieee_2030_5_client_go.Session.Follow.{
  Reads, Following, Phase, discovering, starting, following, Session, new_session, begin_following,
  take_default, read_default, read_list, follow_step, drop_program, after_walk, rewalk, SessionStep,
  walk_fails, finds_none, finds, begins, polls, rewalks, SessionReaches, at_once, then_on,
}

-- A machine that rests in DEFAULT.
abbrev pub Lies : Machine → Type 0
Lies sm = IsResting sm × (sm.state ≡ default)

module _ (p : Platform) (Base : Type 0) where
  SoundIn : Phase p → Machine → Option (DefaultControl Base) → Type 0
  SoundIn (discovering n) sm d = Lies sm × (d ≡ none)
  SoundIn (starting prog) sm d = Lies sm × (d ≡ none)
  SoundIn (following f) sm d = IsKeyed f.prev × IsBacked f.prev sm f.sched.queue

  Sound : Session p Base → Type 0
  unfolding SoundIn
  Sound s = SoundIn s.phase s.sm s.default_ctl

  Lies-inactive :
      (st : EventState) (m : String) (o : Option DerControl) (t : ℤ)
      → Rests st m o t
      → st ≡ default
      → m ≡ ""
  Lies-inactive st m o t h e = ground arith

  pub begin-IsBacked :
      (rng : p.Rng) (sm : Machine) → Lies sm → IsBacked [] sm (new_scheduler p rng).queue
  unfolding new_scheduler occurs
  begin-IsBacked rng sm (rests, lies) =
      let unnamed =
        Lies-inactive sm.state sm.active_mrid sm.active_der_ctrl sm.active_expire_at rests lies in
      record {
        rests = rests;
        queue = new_scheduler-IsQueue p rng;
        named = record { active = λ h. absurd (cc (ap is_default lies)); queued = refl };
        dead = λ m named gone. record { inactive = λ e. named (sym e ∙ unnamed); unqueued = refl };
      }

  read_list-Sound :
      (now : ℤ) (r : Option (ListResult × String)) (f : Following p) (s : Session p Base)
      → IsKeyed f.prev
      → IsBacked f.prev s.sm f.sched.queue
      → Sound (read_list p Base now r f s).0
  unfolding Sound read_list tick
  read_list-Sound now none f s keyed b = (keyed, idle_pass-IsBacked p now f.prev s.sm f.sched b)
  read_list-Sound now (some (list, href)) f s keyed b =
      let keyed' = refresh-IsKeyed f.cache list in
      let (same, b') =
        step_events-IsBacked p now (refresh f.cache list).0 f.prev s.sm f.sched keyed keyed' b in
      (subst IsKeyed (sym same) keyed', b')

  follow_step-Sound :
      (r : Reads Base) (f : Following p) (s : Session p Base)
      → IsKeyed f.prev
      → IsBacked f.prev s.sm f.sched.queue
      → Sound (follow_step p Base r f s).0
  unfolding follow_step read_default
  follow_step-Sound r f s keyed b =
      elim (str_eq f.default_href "")
        as (λ d.
          let (f', s') = if not d then take_default p Base r.default_read f s else (f, s) in
          Sound (read_list p Base r.now r.list_read f' s').0) [
            | true ↦ read_list-Sound r.now r.list_read f s keyed b
            | false ↦ taken r.default_read
          ]
    where
      taken :
          (o : Option (DefaultControl Base × String))
          → let (f', s') = take_default p Base o f s in
            Sound (read_list p Base r.now r.list_read f' s').0
      taken none = read_list-Sound r.now r.list_read f s keyed b
      taken (some (ddc, href)) = read_list-Sound r.now r.list_read _ _ keyed b

  drop_program-Lies :
      (now : ℤ) (replacement : Option Program) (f : Following p) (s : Session p Base)
      → IsKeyed f.prev
      → IsBacked f.prev s.sm f.sched.queue
      → Sound (drop_program p Base now replacement f s).0
  unfolding Sound drop_program diff_snapshots changed_in tick
  drop_program-Lies now none f s keyed b =
      let b' = diff-IsBacked p now f.prev [] s.sm f.sched keyed tt b in
      ((b'.rests, IsBacked-state _ _ b'), refl)
  drop_program-Lies now (some next) f s keyed b =
      let b' = diff-IsBacked p now f.prev [] s.sm f.sched keyed tt b in
      ((b'.rests, IsBacked-state _ _ b'), refl)

  after_walk-Sound :
      (now : ℤ) (mv : Moved) (f : Following p) (s : Session p Base)
      → IsKeyed f.prev
      → IsBacked f.prev s.sm f.sched.queue
      → Sound s
      → Sound (after_walk p Base now mv f s)
  unfolding after_walk
  after_walk-Sound now stays f s keyed b h = h
  after_walk-Sound now gone f s keyed b h = drop_program-Lies now none f s keyed b
  after_walk-Sound now (replaced next) f s keyed b h = drop_program-Lies now (some next) f s keyed b

  at_phase :
      (s : Session p Base) (ph : Phase p) → s.phase ≡ ph → Sound s → SoundIn ph s.sm s.default_ctl
  unfolding Sound
  at_phase s ph at h = subst (λ ph. SoundIn ph s.sm s.default_ctl) at h

  step-Sound : {s t : Session p Base} → SessionStep p Base s t → Sound s → Sound t
  unfolding Sound SoundIn begin_following new_cache rewalk
  step-Sound (walk_fails {s = s} n strict svs link at failed) h = at_phase s _ at h
  step-Sound (finds_none n strict svs left link w at walked none_there) h = h
  step-Sound (finds {s = s} n strict svs left link w prog at walked chosen) h = at_phase s _ at h
  step-Sound (begins {s = s} prog rng r at) h =
      let (lies, _) = at_phase s _ at h in
      follow_step-Sound r (begin_following p rng prog) s tt (begin-IsBacked rng s.sm lies)
  step-Sound (polls {s = s} f r at) h =
      let (keyed, b) = at_phase s _ at h in follow_step-Sound r f s keyed b
  step-Sound (rewalks {s = s} f now svs link w at walked) h =
      let (keyed, b) = at_phase s _ at h in
      after_walk-Sound now (program_moved f.prog w) f s keyed b h

  reaches-Sound : {s t : Session p Base} → SessionReaches p Base s t → Sound s → Sound t
  reaches-Sound at_once h = h
  reaches-Sound (then_on r st) h = step-Sound st (reaches-Sound r h)

  new_session-Sound : (v : Option Validator) → Sound (new_session p Base v)
  unfolding Sound SoundIn new_session set_validator new_state_machine
  new_session-Sound v = ((new_state_machine-IsResting, refl), refl)

  -- What may drive the device: without a program to follow nothing does, and with one, a control that
  -- is in force is one of the program's last list, which the server has not cancelled there.
  unfoldable pub Driven :
      (DerControl → Option Base)
      → String
      → Phase p
      → Machine
      → Option (DefaultControl Base)
      → Type 0
  Driven base_of mode (discovering n) sm d = session_base base_of mode sm d ≡ none
  Driven base_of mode (starting prog) sm d = session_base base_of mode sm d ≡ none
  Driven base_of mode (following f) sm d =
      (c : DerControl)
      → sm.state ≡ event_started
      → sm.active_der_ctrl ≡ some c
      → is_standing c.mrid f.prev ≡ true

  Lies-Driven :
      (base_of : DerControl → Option Base) (mode : String) (sm : Machine)
      (d : Option (DefaultControl Base))
      → Lies sm
      → d ≡ none
      → session_base base_of mode sm d ≡ none
  unfolding session_base current
  Lies-Driven base_of mode sm d (rests, lies) e = ground arith

  SoundIn-Driven :
      (base_of : DerControl → Option Base) (mode : String) (ph : Phase p) (sm : Machine)
      (d : Option (DefaultControl Base))
      → SoundIn ph sm d
      → Driven base_of mode ph sm d
  unfolding SoundIn Driven
  SoundIn-Driven base_of mode (discovering n) sm d (lies, e) = Lies-Driven base_of mode sm d lies e
  SoundIn-Driven base_of mode (starting prog) sm d (lies, e) = Lies-Driven base_of mode sm d lies e
  SoundIn-Driven base_of mode (following f) sm d (keyed, b) =
      λ c started active. IsBacked-live f.prev sm f.sched.queue c b started active

  -- In every state that a new session reaches, by walks of the programs, polls and re-walks in any
  -- order and with any outcome: while no program is followed, no control drives the device, neither
  -- an event's nor a default one; while one is, a DERControl that is in force is in the last list
  -- that was read of that program, and the server has not cancelled it there.
  pub reaches-Driven :
      (base_of : DerControl → Option Base) (mode : String) (v : Option Validator)
      (s : Session p Base)
      → SessionReaches p Base (new_session p Base v) s
      → Driven base_of mode s.phase s.sm s.default_ctl
  unfolding Sound
  reaches-Driven base_of mode v s r =
      SoundIn-Driven base_of mode s.phase s.sm s.default_ctl (reaches-Sound r (new_session-Sound v))
