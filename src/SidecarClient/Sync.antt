-- ===== src/SidecarClient/Sync.antt =====
-- internal/sim/gridlabd/client.go: the client and the sidecar stay in step on the wire.
use ieee_2030_5_client_go.Shared.{
  ℕ, ◌≡◌, refl, ◌⊎◌, inl, inr, true, false, Option, none, some, List, [], ◌∷◌, String, ◌++◌, not,
  ◌&&◌, ltb_ℤ, pos, ℤ, sym, subst, Bool-cases, if◌then◌else◌, arith,
}
use ieee_2030_5_client_go.SidecarClient.{
  Args, Link, WireReply, Conn, Result, err, Attempt, Trip, trip_on, write_fails, read_fails,
  answered, Fault, Use, use_all, use_one, calls, closes, request, numbered, ContextError, send,
  abandon, under_lock, locked, no_deadline, connection_broken, delivered, next_line,
  closed_connection, decoded, Cause, call, round_trip, finish, mark_broken, dial_client,
  close_client,
}

-- A connection that is not broken owes no reply.
abbrev pub IsInSync : {Line Model : Type 0} → Conn Line Model → Type 0
IsInSync c = c.client.broken ≡ none → c.owed ≡ []

-- A line that was read was the only one owed.
IsReadOff : {Line Model : Type 0} → (Fault ⊎ Line) × Conn Line Model → Type 0
IsReadOff (inl f, c) = Unit
IsReadOff (inr line, c) = c.owed ≡ []

module _ {V Raw Line Model : Type 0} (link : Link V Raw Line Model) where
  mark_broken-IsInSync : (cause : Cause) (c : Conn Line Model) → IsInSync (mark_broken link cause c)
  unfolding mark_broken
  mark_broken-IsInSync cause c h = cc

  decoded-IsInSync :
      (id : ℕ) (o : Option (WireReply Raw)) (c : Conn Line Model)
      → c.owed ≡ []
      → IsInSync (decoded link id o c).1
  unfolding decoded mark_broken
  decoded-IsInSync id none c h = cc
  decoded-IsInSync id (some r) c h = ground arith

  trip_on-IsReadOff :
      (t : Trip) (line : Line) (c : Conn Line Model)
      → c.owed ≡ []
      → IsReadOff (trip_on link t line c)
  unfolding IsReadOff trip_on
  trip_on-IsReadOff (write_fails whole f) line c h = tt
  trip_on-IsReadOff (read_fails f) line c h = tt
  trip_on-IsReadOff answered line c h =
      subst
        (λ o.
          IsReadOff
            (next_line link (o ++ (link.serve line c.model).0 ∷ []) (delivered link line c)))
        (sym h) refl

  round_trip-IsReadOff :
      (t : Trip) (line : Line) (c : Conn Line Model)
      → c.owed ≡ []
      → IsReadOff (round_trip link t line c)
  unfolding IsReadOff round_trip
  round_trip-IsReadOff t line c h =
      elim c.closed
        as (λ b. IsReadOff (if b then (inl closed_connection, c) else trip_on link t line c)) [
          | true ↦ tt
          | false ↦ trip_on-IsReadOff t line c h
        ]

  finish-IsInSync :
      (id : ℕ) (p : (Fault ⊎ Line) × Conn Line Model) → IsReadOff p → IsInSync (finish link id p).1
  unfolding finish IsReadOff
  finish-IsInSync id (inl f, c) h = mark_broken-IsInSync _ c
  finish-IsInSync id (inr line, c) h = decoded-IsInSync id (link.unmarshal line) c h

  abandon-IsInSync :
      (o : Option ContextError) (p : Result Raw × Conn Line Model)
      → IsInSync p.1
      → IsInSync (abandon link o p).1
  unfolding abandon
  abandon-IsInSync none p h = h
  abandon-IsInSync (some e) (r, c) h = h

  send-IsInSync :
      (a : Attempt) (id : ℕ) (o : Option Line) (c : Conn Line Model)
      → c.owed ≡ []
      → IsInSync (send link a id o c).1
  unfolding send
  send-IsInSync a id none c h = λ _. h
  send-IsInSync a id (some line) c h =
      elim (Bool-cases (ltb_ℤ (pos 0) c.client.timeout && not (a.deadline_set && not c.closed))) [
        | inl e ↦ rw e (mark_broken-IsInSync no_deadline c)
        | inr e ↦ rw e (
            abandon-IsInSync a.gives_up _
              (finish-IsInSync id _ (round_trip-IsReadOff a.trip line c h)))
      ]

  locked-IsInSync :
      (a : Attempt) (b : Option Cause) (op : String) (args : Args V) (c : Conn Line Model)
      → (b ≡ none → c.owed ≡ [])
      → c.client.broken ≡ b
      → IsInSync (locked link a b op args c).1
  unfolding locked under_lock numbered
  locked-IsInSync a (some cause) op args c h e = λ x. absurd (cc)
  locked-IsInSync a none op args c h e =
      elim a.ctx_err as (λ o. IsInSync (under_lock link a o op args c).1) [
        | none ↦
            send-IsInSync a c.client.next_id (link.marshal (request link op args c))
              (numbered link c) (h refl)
        | some x ↦ λ _. h refl
      ]

  pub call-IsInSync :
      (a : Attempt) (op : String) (args : Args V) (c : Conn Line Model)
      → IsInSync c
      → IsInSync (call link a op args c).1
  unfolding call
  call-IsInSync a op args c h =
      elim a.early
        as (λ b.
          IsInSync
            (if b then (err connection_broken, c) else locked link a c.client.broken op args c).1) [
              | true ↦ h
              | false ↦ locked-IsInSync a c.client.broken op args c h refl
            ]

  pub use_all-IsInSync :
      (us : List (Use V)) (c : Conn Line Model) → IsInSync c → IsInSync (use_all link us c)
  unfolding use_all use_one close_client
  use_all-IsInSync [] c h = h
  use_all-IsInSync (closes ∷ us) c h = use_all-IsInSync us (close_client link c) h
  use_all-IsInSync (calls a op args ∷ us) c h =
      use_all-IsInSync us (call link a op args c).1 (call-IsInSync a op args c h)

  pub dial_client-IsInSync :
      (timeout : ℤ) (m : Model) (c : Conn Line Model)
      → dial_client link timeout m ≡ some c
      → IsInSync c
  unfolding dial_client
  dial_client-IsInSync timeout m c h = λ _. ground arith
