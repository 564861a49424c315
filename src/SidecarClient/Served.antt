-- ===== src/SidecarClient/Served.antt =====
-- internal/sim/gridlabd/client.go: a call that succeeds returns the sidecar's answer to that call.
use ieee_2030_5_client_go.Shared.{
  ℕ, ◌≡◌, refl, ◌⊎◌, inl, inr, true, false, Option, none, some, List, [], ◌∷◌, String, arith,
  if◌then◌else◌, ◌++◌, not, ◌&&◌, ltb_ℤ, pos, ℤ, sym, subst, ap, ◌∙◌,
}
use ieee_2030_5_client_go.SidecarClient.{
  Args, Link, WireReply, Conn, ok, err, Attempt, Trip, trip_on, write_fails, read_fails, answered,
  Fault, Use, use_all, closed_connection, breaks, request, numbered, ContextError, send, abandon,
  under_lock, locked, no_deadline, connection_broken, delivered, next_line, Cause, call,
  decode_reply, round_trip, finish, dial_client, decoded, refusal, WireErrorBody,
}
use ieee_2030_5_client_go.SidecarClient.Sync.{use_all-IsInSync, dial_client-IsInSync, IsInSync}

module _ {V Raw Line Model : Type 0} (link : Link V Raw Line Model) where
  -- The reply that the sidecar gives to a line in a state carries this identifier, accepts the
  -- request, and has this result.
  abbrev pub IsReplyOf : ℕ → Raw → Line → Model → Type 0
  IsReplyOf id raw line m =
      (r : WireReply Raw) × (link.unmarshal (link.serve line m).0 ≡ some r)
      × (r.id ≡ id)
      × (r.is_ok ≡ true)
      × (r.result ≡ raw)

  -- The request was sent, and answered with this result by the sidecar, which moved on once.
  abbrev pub IsAnswer : String → Args V → Raw → Conn Line Model → Conn Line Model → Type 0
  IsAnswer op args raw c c' =
      (line : Line) × (link.marshal (request link op args c) ≡ some line)
      × IsReplyOf c.client.next_id raw line c.model
      × (c'.model ≡ (link.serve line c.model).1)

  refusal-ne-ok :
      (e : Option WireErrorBody) (c : Conn Line Model) (raw : Raw)
      → (refusal link e c).0 ≡ ok raw
      → ⊥
  unfolding refusal
  refusal-ne-ok none c raw h = cc
  refusal-ne-ok (some e) c raw h = ground arith

  -- A line that decodes to a result is a reply with the identifier, and changes nothing.
  decoded-ok :
      (id : ℕ) (o : Option (WireReply Raw)) (c : Conn Line Model) (raw : Raw)
      → (decoded link id o c).0 ≡ ok raw
      → (r : WireReply Raw) × (o ≡ some r)
        × (r.id ≡ id)
        × (r.is_ok ≡ true)
        × (r.result ≡ raw)
        × ((decoded link id o c).1 ≡ c)
  unfolding decoded
  decoded-ok id none c raw h = absurd (cc)
  decoded-ok id (some r) c raw h = (
    r,
    refl,
    ground (arith, refusal-ne-ok r.error c raw),
    ground (arith, refusal-ne-ok r.error c raw),
    ground (arith, refusal-ne-ok r.error c raw),
    ground (arith, refusal-ne-ok r.error c raw),
  )

  finish-ok :
      (id : ℕ) (p : (Fault ⊎ Line) × Conn Line Model) (raw : Raw)
      → (finish link id p).0 ≡ ok raw
      → (l : Line) × (p.0 ≡ inr l)
        × ((decode_reply link id l p.1).0 ≡ ok raw)
        × ((finish link id p).1 ≡ (decode_reply link id l p.1).1)
  unfolding finish
  finish-ok id (inl f, c) raw h = absurd (cc)
  finish-ok id (inr line, c) raw h = (line, refl, h, refl)

  trip_on-inr :
      (t : Trip) (line : Line) (c : Conn Line Model) (l : Line)
      → c.owed ≡ []
      → (trip_on link t line c).0 ≡ inr l
      → (l ≡ (link.serve line c.model).0)
        × ((trip_on link t line c).1.model ≡ (link.serve line c.model).1)
  unfolding trip_on next_line delivered
  trip_on-inr (write_fails whole f) line c l h e = absurd (cc)
  trip_on-inr (read_fails f) line c l h e = absurd (cc)
  trip_on-inr answered line c l h e =
      subst
        (λ o.
          (next_line link (o ++ (link.serve line c.model).0 ∷ []) (delivered link line c)).0 ≡ inr l
          → (l ≡ (link.serve line c.model).0)
            × ((next_line link (o ++ (link.serve line c.model).0 ∷ [])
                  (delivered link line c)).1.model
                ≡ (link.serve line c.model).1))
        (sym h) (λ x. (ground arith, refl)) e

  round_trip-inr :
      (t : Trip) (line : Line) (c : Conn Line Model) (l : Line)
      → c.owed ≡ []
      → (round_trip link t line c).0 ≡ inr l
      → (l ≡ (link.serve line c.model).0)
        × ((round_trip link t line c).1.model ≡ (link.serve line c.model).1)
  unfolding round_trip
  round_trip-inr t line c l h =
      elim c.closed
        as (λ b.
          (if b then (inl closed_connection, c) else trip_on link t line c).0 ≡ inr l
          → (l ≡ (link.serve line c.model).0)
            × ((if b then (inl closed_connection, c) else trip_on link t line c).1.model
                ≡ (link.serve line c.model).1)) [
                  | true ↦ λ x. absurd (cc)
                  | false ↦ trip_on-inr t line c l h
                ]

  abbrev Exchanged : ℕ → Raw → Line → Conn Line Model → Conn Line Model → Type 0
  Exchanged id raw line c c' =
      IsReplyOf id raw line c.model × (c'.model ≡ (link.serve line c.model).1)

  -- A round trip that ends in a result read the reply to its own line.
  exchange-ok :
      (t : Trip) (id : ℕ) (line : Line) (c : Conn Line Model) (raw : Raw)
      → c.owed ≡ []
      → (finish link id (round_trip link t line c)).0 ≡ ok raw
      → Exchanged id raw line c (finish link id (round_trip link t line c)).1
  unfolding decode_reply
  exchange-ok t id line c raw h e =
      let (l, read, decoded_to, after) = finish-ok id (round_trip link t line c) raw e in
      let (own, moved) = round_trip-inr t line c l h read in
      let (r, unmarshalled, same, accepted, result, unchanged) =
        decoded-ok id (link.unmarshal l) (round_trip link t line c).1 raw decoded_to in
      (
        (r, ap link.unmarshal (sym own) ∙ unmarshalled, same, accepted, result),
        ap (λ (x : Conn Line Model). x.model) (after ∙ unchanged) ∙ moved,
      )

  -- An attempt that sends a line and succeeds.
  send-ok :
      (a : Attempt) (id : ℕ) (line : Line) (c : Conn Line Model) (raw : Raw)
      → c.owed ≡ []
      → (send link a id (some line) c).0 ≡ ok raw
      → Exchanged id raw line c (send link a id (some line) c).1
  unfolding send abandon
  send-ok a id line c raw h =
      elim (ltb_ℤ (pos 0) c.client.timeout && not (a.deadline_set && not c.closed))
        as (λ b.
          (if b
              then breaks link no_deadline c
              else abandon link a.gives_up (finish link id (round_trip link a.trip line c))).0
            ≡ ok raw
          → Exchanged id raw line c
              (if b
                then breaks link no_deadline c
                else abandon link a.gives_up (finish link id (round_trip link a.trip line c))).1) [
                  | true ↦ λ x. absurd (cc)
                  | false ↦
                      elim a.gives_up
                        as (λ g.
                          (abandon link g (finish link id (round_trip link a.trip line c))).0
                            ≡ ok raw
                          → Exchanged id raw line c
                              (abandon link g (finish link id (round_trip link a.trip line c))).1) [
                                | none ↦ exchange-ok a.trip id line c raw h
                                | some x ↦ λ e. absurd (cc)
                              ]
                ]

  sent-ok :
      (a : Attempt) (o : Option Line) (id : ℕ) (c : Conn Line Model) (raw : Raw)
      → c.owed ≡ []
      → (send link a id o c).0 ≡ ok raw
      → (line : Line) × (o ≡ some line) × Exchanged id raw line c (send link a id o c).1
  unfolding send
  sent-ok a none id c raw h e = absurd (cc)
  sent-ok a (some line) id c raw h e = (line, refl, send-ok a id line c raw h e)

  under_lock-ok :
      (a : Attempt) (x : Option ContextError) (op : String) (args : Args V) (c : Conn Line Model)
      (raw : Raw)
      → c.owed ≡ []
      → (under_lock link a x op args c).0 ≡ ok raw
      → IsAnswer op args raw c (under_lock link a x op args c).1
  unfolding under_lock numbered
  under_lock-ok a (some x) op args c raw h e = absurd (cc)
  under_lock-ok a none op args c raw h e =
      let (line, m, ex) =
        sent-ok a (link.marshal (request link op args c)) c.client.next_id (numbered link c) raw h
          e in
      (line, m, ex.0, ex.1)

  locked-ok :
      (a : Attempt) (b : Option Cause) (op : String) (args : Args V) (c : Conn Line Model)
      (raw : Raw)
      → (b ≡ none → c.owed ≡ [])
      → (locked link a b op args c).0 ≡ ok raw
      → IsAnswer op args raw c (locked link a b op args c).1
  unfolding locked
  locked-ok a (some cause) op args c raw h e = absurd (cc)
  locked-ok a none op args c raw h e = under_lock-ok a a.ctx_err op args c raw (h refl) e

  pub call-ok :
      (a : Attempt) (op : String) (args : Args V) (c : Conn Line Model) (raw : Raw)
      → IsInSync c
      → (call link a op args c).0 ≡ ok raw
      → IsAnswer op args raw c (call link a op args c).1
  unfolding call
  call-ok a op args c raw h =
      elim a.early
        as (λ b.
          (if b then (err connection_broken, c) else locked link a c.client.broken op args c).0
            ≡ ok raw
          → IsAnswer op args raw c
              (if b
                then (err connection_broken, c)
                else locked link a c.client.broken op args c).1) [
                  | true ↦ λ x. absurd (cc)
                  | false ↦ locked-ok a c.client.broken op args c raw h
                ]

  -- After any calls on a dialed connection, whatever became of them, a call that succeeds returns the
  -- result in the sidecar's reply to this very request, with its identifier, and the sidecar has
  -- served one request more, this one.
  pub dialed-call-IsAnswer :
      (timeout : ℤ) (m : Model) (c : Conn Line Model) (us : List (Use V)) (a : Attempt)
      (op : String) (args : Args V) (raw : Raw)
      → dial_client link timeout m ≡ some c
      → (call link a op args (use_all link us c)).0 ≡ ok raw
      → IsAnswer op args raw (use_all link us c) (call link a op args (use_all link us c)).1
  dialed-call-IsAnswer timeout m c us a op args raw d =
      call-ok a op args (use_all link us c) raw
        (use_all-IsInSync link us c (dial_client-IsInSync link timeout m c d))
