-- ===== src/SidecarClient/Cancelled.antt =====
-- internal/sim/gridlabd/client.go: a caller that gives up does not break the connection.
use ieee_2030_5_client_go.Shared.{
  ℕ, ◌≡◌, refl, Bool, true, false, Option, none, some, List, [], ◌∷◌, String, arith, if◌then◌else◌,
  not, ◌&&◌, ltb_ℤ, pos, sym, subst, ap, ◌∙◌, str_eq,
}
use ieee_2030_5_client_go.SidecarClient.{
  Args, Link, WireRequest, WireReply, WireErrorBody, Conn, Result, ok, err, remote, Attempt,
  trip_on, answered, Use, calls, closes, use_all, use_one, breaks, no_deadline, ContextError, send,
  abandon, under_lock, locked, connection_broken, delivered, next_line, numbered, request, Cause,
  call, decode_reply, round_trip, finish, decoded, refusal,
}

-- The reply says that the worker died.
unfoldable pub is_worker_dead : {Raw : Type 0} → WireReply Raw → Bool
is_worker_dead r =
    not r.is_ok && elim r.error [ none ↦ false | some e ↦ str_eq e.code "worker_dead" ]

remote_of : {Raw : Type 0} → Option WireErrorBody → Result Raw
remote_of none = err (remote "" "")
remote_of (some e) = err (remote e.code e.message)

-- What a caller is told of a reply of a live worker.
unfoldable pub told : {Raw : Type 0} → WireReply Raw → Result Raw
unfolding remote_of
told r = if r.is_ok then ok r.result else remote_of r.error

-- An attempt whose line is written and whose reply is read; the caller may have given up.
abbrev pub IsCarried : Attempt → Type 0
IsCarried a = (a.deadline_set ≡ true) × (a.trip ≡ answered)

abbrev pub AllCarried : {V : Type 0} → List (Use V) → Type 0
AllCarried [] = Unit
AllCarried (closes ∷ us) = ⊥
AllCarried (calls a op args ∷ us) = IsCarried a × AllCarried us

-- A connection that is not broken, not closed, and owes nothing.
abbrev pub IsUp : {Line Model : Type 0} → Conn Line Model → Type 0
IsUp c = (c.client.broken ≡ none) × (c.closed ≡ false) × (c.owed ≡ [])

module _ {V Raw Line Model : Type 0} (link : Link V Raw Line Model) where
  -- The sidecar answers this request, in any state, with the request's identifier.
  abbrev pub Answers : WireRequest V → Line → Type 0
  Answers q line =
      (m : Model)
      → (r : WireReply Raw) × (link.unmarshal (link.serve line m).0 ≡ some r)
        × (r.id ≡ q.id)
        × (is_worker_dead r ≡ false)

  -- A sidecar that works: it answers every request.
  abbrev pub IsServing : Type 0
  IsServing = (q : WireRequest V) (line : Line) → link.marshal q ≡ some line → Answers q line

  refusal-told :
      (e : Option WireErrorBody) (c : Conn Line Model)
      → elim e [ none ↦ false | some b ↦ str_eq b.code "worker_dead" ] ≡ false
      → refusal link e c ≡ (remote_of e, c)
  unfolding refusal remote_of
  refusal-told none c h = refl
  refusal-told (some e) c h = rw h

  decoded-told :
      (id : ℕ) (r : WireReply Raw) (c : Conn Line Model)
      → r.id ≡ id
      → is_worker_dead r ≡ false
      → decoded link id (some r) c ≡ (told r, c)
  unfolding decoded told is_worker_dead
  decoded-told id r c same alive = ground (arith, refusal-told r.error c)

  finish-told :
      (id : ℕ) (line : Line) (c : Conn Line Model) (r : WireReply Raw)
      → c.closed ≡ false
      → c.owed ≡ []
      → link.unmarshal (link.serve line c.model).0 ≡ some r
      → r.id ≡ id
      → is_worker_dead r ≡ false
      → finish link id (round_trip link answered line c)
        ≡ (told r, record c { model = (link.serve line c.model).1 })
  unfolding finish round_trip trip_on delivered next_line decode_reply
  finish-told id line c r open_conn empty read same alive =
      let fresh : Conn Line Model = record c { closed = false; owed = [] } in
      let e : fresh ≡ c = λ i. record c { closed = sym open_conn i; owed = sym empty i } in
      let after : Conn Line Model = record fresh { model = (link.serve line c.model).1 } in
      subst
        (λ (x : Conn Line Model).
          finish link id (round_trip link answered line x)
          ≡ (told r, record x { model = (link.serve line x.model).1 }))
        e (ap (λ o. decoded link id o after) read ∙ decoded-told id r after same alive)

  after_reply : Line → Conn Line Model → Conn Line Model
  after_reply line c = record c { model = (link.serve line c.model).1 }

  send-told :
      (a : Attempt) (id : ℕ) (line : Line) (c : Conn Line Model) (r : WireReply Raw)
      → IsCarried a
      → IsUp c
      → link.unmarshal (link.serve line c.model).0 ≡ some r
      → r.id ≡ id
      → is_worker_dead r ≡ false
      → send link a id (some line) c ≡ abandon link a.gives_up (told r, after_reply line c)
  unfolding send after_reply
  send-told a id line c r carried up read same alive =
      let deadline : (ltb_ℤ (pos 0) c.client.timeout && not (a.deadline_set && not c.closed))
          ≡ false =
        ground arith in
      ap
        (λ b.
          if b
          then breaks link no_deadline c
          else abandon link a.gives_up (finish link id (round_trip link a.trip line c)))
        deadline
      ∙ ap (λ t. abandon link a.gives_up (finish link id (round_trip link t line c))) carried.1
      ∙ ap (abandon link a.gives_up) (finish-told id line c r up.1 up.2 read same alive)

  abandon-IsUp :
      (g : Option ContextError) (res : Result Raw) (c : Conn Line Model)
      → IsUp c
      → IsUp (abandon link g (res, c)).1
  unfolding abandon
  abandon-IsUp none res c h = h
  abandon-IsUp (some e) res c h = h

  send-IsUp :
      (a : Attempt) (q : WireRequest V) (o : Option Line) (c : Conn Line Model)
      → IsServing
      → IsCarried a
      → IsUp c
      → link.marshal q ≡ o
      → IsUp (send link a q.id o c).1
  unfolding after_reply
  send-IsUp a q none c serving carried up e = unfold send in up
  send-IsUp a q (some line) c serving carried up e =
      let (r, read, same, alive) = serving q line e c.model in
      subst (λ (p : Result Raw × Conn Line Model). IsUp p.1)
        (sym (send-told a q.id line c r carried up read same alive))
        (abandon-IsUp a.gives_up (told r) (after_reply line c) up)

  locked-IsUp :
      (a : Attempt) (b : Option Cause) (op : String) (args : Args V) (c : Conn Line Model)
      → IsServing
      → IsCarried a
      → IsUp c
      → IsUp (locked link a b op args c).1
  unfolding locked under_lock numbered
  locked-IsUp a (some cause) op args c serving carried up = up
  locked-IsUp a none op args c serving carried up =
      elim a.ctx_err as (λ x. IsUp (under_lock link a x op args c).1) [
        | none ↦
            send-IsUp a (request link op args c) (link.marshal (request link op args c))
              (numbered link c) serving carried up refl
        | some x ↦ up
      ]

  -- A carried attempt on a connection that is up leaves it up, whatever the caller does.
  call-IsUp :
      (a : Attempt) (op : String) (args : Args V) (c : Conn Line Model)
      → IsServing
      → IsCarried a
      → IsUp c
      → IsUp (call link a op args c).1
  unfolding call
  call-IsUp a op args c serving carried up =
      elim a.early
        as (λ b.
          IsUp
            (if b then (err connection_broken, c) else locked link a c.client.broken op args c).1) [
              | true ↦ up
              | false ↦ locked-IsUp a c.client.broken op args c serving carried up
            ]

  use_all-IsUp :
      (us : List (Use V)) (c : Conn Line Model)
      → IsServing
      → AllCarried us
      → IsUp c
      → IsUp (use_all link us c)
  unfolding use_all use_one
  use_all-IsUp [] c serving carried up = up
  use_all-IsUp (closes ∷ us) c serving carried up = elim carried [ ]
  use_all-IsUp (calls a op args ∷ us) c serving carried up =
      use_all-IsUp us (call link a op args c).1 serving carried.1
        (call-IsUp a op args c serving carried.0 up)

  -- A caller that waits for its reply.
  abbrev pub IsWaiting : Attempt → Type 0
  IsWaiting a = (a.early ≡ false) × (a.ctx_err ≡ none) × (a.gives_up ≡ none) × IsCarried a

  call-told :
      (a : Attempt) (op : String) (args : Args V) (c : Conn Line Model) (line : Line)
      → IsServing
      → IsWaiting a
      → IsUp c
      → link.marshal (request link op args c) ≡ some line
      → (r : WireReply Raw) × (link.unmarshal (link.serve line c.model).0 ≡ some r)
        × (r.id ≡ c.client.next_id)
        × ((call link a op args c).0 ≡ told r)
  unfolding call locked under_lock abandon
  call-told a op args c line serving (early, ctx, patient, carried) up e =
      let (r, read, same, alive) = serving (request link op args c) line e c.model in
      let id = c.client.next_id in
      let whole : call link a op args c ≡ (told r, after_reply line (numbered link c)) =
        ap (λ b. if b then (err connection_broken, c) else locked link a c.client.broken op args c)
          early
        ∙ ap (λ b. locked link a b op args c) up.0
        ∙ ap (λ x. under_lock link a x op args c) ctx
        ∙ ap (λ o. send link a id o (numbered link c)) e
        ∙ send-told a id line (numbered link c) r carried up read same alive
        ∙ ap (λ g. abandon link g (told r, after_reply line (numbered link c))) patient in
      (r, read, same, ap (λ (p : Result Raw × Conn Line Model). p.0) whole)

  -- With a sidecar that works, after any calls whose lines are written and whose replies are read,
  -- those included whose callers gave up before, a call that waits is told the sidecar's reply to
  -- this very request, and the connection stays unbroken.
  pub use_all-call-told :
      (us : List (Use V)) (a : Attempt) (op : String) (args : Args V) (c : Conn Line Model)
      (line : Line)
      → IsServing
      → AllCarried us
      → IsWaiting a
      → IsUp c
      → link.marshal (request link op args (use_all link us c)) ≡ some line
      → ((call link a op args (use_all link us c)).1.client.broken ≡ none)
        × ((r : WireReply Raw) × (link.unmarshal (link.serve line (use_all link us c).model).0
              ≡ some r)
            × (r.id ≡ (use_all link us c).client.next_id)
            × ((call link a op args (use_all link us c)).0 ≡ told r))
  use_all-call-told us a op args c line serving carried waiting up e =
      let up' = use_all-IsUp us c serving carried up in
      (
        (call-IsUp a op args (use_all link us c) serving waiting.3 up').0,
        call-told a op args (use_all link us c) line serving waiting up' e,
      )
