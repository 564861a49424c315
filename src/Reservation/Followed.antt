-- ===== src/Reservation/Followed.antt =====
-- The invariant of the grant over the operations of cmd/inverterclient/reservation.go.
use ieee_2030_5_client_go.Shared.{
  ℕ, ◌≡◌, refl, ◌∙◌, subst, Bool, true, false, not, ◌||◌, List, [], ◌∷◌, Option, none, some, String,
  str_eq, if◌then◌else◌, arith, ℤ, ◌+ℤ◌, ltb_ℤ, sec, Bool-cases, inl, inr, listed, ltb, length, ◌%◌,
  ◌^◌,
}
use ieee_2030_5_client_go.Reservation.{FlowRequest, FlowResponse, Overlay}
use ieee_2030_5_client_go.Reservation.Request.{Built, built, refused}
use ieee_2030_5_client_go.Reservation.Reserver.{
  Client, Config, Current, Stale, Reserver, grace, is_cur, drop_grant,
}
use ieee_2030_5_client_go.Reservation.Withdrawing.{
  withdraw, retry_stale, withdraw_cur, withdraw_followed, follow, after_post, after_build,
  after_mrid, after_overlay,
}
use ieee_2030_5_client_go.Reservation.Reading.{
  finish, update, owing, settled, is_received_required, acknowledge, acknowledge_each,
  acknowledge_all, handle_read, poll_cur, poll_followed,
}
use ieee_2030_5_client_go.Reservation.Withdrawn.{
  Grants, IsSound, withdraw-Grants, retry_each-IsSound,
}
use ieee_2030_5_client_go.Reservation.Installed.{
  later_if-IsSound, Alike, if_Alike, store-Grants, update-IsSound,
}

module _ {W : Type 0} (client : Client W) (cf : Config) where
  pub retry_stale-IsSound :
      (ss : List Stale) (r : Reserver) (w : W)
      → IsSound r
      → IsSound (retry_stale client cf ss r w).0
  unfolding retry_stale
  retry_stale-IsSound [] r w h = h
  retry_stale-IsSound (s ∷ ss) r w h = retry_each-IsSound client cf _ (s ∷ ss) r _ h

  withdraw_cur-IsSound :
      (i : ℕ) (r : Reserver) (w : W)
      → r.cur ≡ some i
      → IsSound r
      → IsSound (withdraw_cur client cf i r w).0
  unfolding withdraw_cur
  withdraw_cur-IsSound i r w e h =
      let c = r.heap i in
      let (now, w1) = client.now w in
      let (attempt, heap1, w2) = withdraw client i now r.heap w1 in
      let r1 = record r { heap = heap1; grant = drop_grant attempt true r.grant } in
      let own : is_cur i r.cur ≡ true = ground (arith, e) in
      let kept : IsSound r1 =
        subst (λ b. Grants heap1 r.cur (drop_grant attempt b r.grant)) own
          (withdraw-Grants client i now r.heap w1 r.cur r.grant h) in
      elim (Bool-cases (c.done || c.withdrawn)) [
        | inl f ↦ rw f h
        | inr f ↦ rw f (later_if-IsSound cf attempt i now r1 kept)
      ]

  pub withdraw_followed-IsSound :
      (o : Option ℕ) (r : Reserver) (w : W)
      → r.cur ≡ o
      → IsSound r
      → IsSound (withdraw_followed client cf o r w).0
  unfolding withdraw_followed
  withdraw_followed-IsSound none r w e h = h
  withdraw_followed-IsSound (some i) r w e h = withdraw_cur-IsSound i r w e h

  after_post-IsSound :
      (o : Option String) (req : FlowRequest) (mrid : String) (now : ℤ) (r : Reserver) (w : W)
      → IsSound r
      → IsSound (after_post client cf o req mrid now r w).0
  unfolding after_post follow
  after_post-IsSound none req mrid now r w h = h
  after_post-IsSound (some loc) req mrid now r w h = tt

  after_build-IsSound :
      (b : Built) (mrid : String) (now : ℤ) (r : Reserver) (w : W)
      → IsSound r
      → IsSound (after_build client cf b mrid now r w).0
  unfolding after_build
  after_build-IsSound (refused e) mrid now r w h = h
  after_build-IsSound (built req) mrid now r w h = after_post-IsSound _ req mrid now r _ h

  after_mrid-IsSound :
      (o : Option String) (overlay : Overlay) (now : ℤ) (r : Reserver) (w : W)
      → IsSound r
      → IsSound (after_mrid client cf o overlay now r w).0
  unfolding after_mrid
  after_mrid-IsSound none overlay now r w h = h
  after_mrid-IsSound (some mrid) overlay now r w h = after_build-IsSound _ mrid now r w h

  pub after_overlay-IsSound :
      (o : Option Overlay) (r : Reserver) (w : W)
      → IsSound r
      → IsSound (after_overlay client cf o r w).0
  unfolding after_overlay
  after_overlay-IsSound none r w h = h
  after_overlay-IsSound (some overlay) r w h = after_mrid-IsSound _ overlay _ r _ h

  acknowledge-Alike :
      (now : ℤ) (resp : FlowResponse) (c : Current) (w : W)
      → Alike (acknowledge client cf now resp c w).0 c
  unfolding acknowledge owing settled
  acknowledge-Alike now resp c w =
      elim (Bool-cases (
        not (is_received_required resp)
        || (str_eq resp.reply_to "" || (str_eq resp.mrid "" || listed resp.mrid c.acked)))) [
          | inl e ↦ rw e (refl, refl, refl)
          | inr e ↦ rw e (taken_Alike _)
        ]
    where
      taken_Alike :
          (b : Bool)
          → Alike (if b then settled resp.mrid (owing resp.mrid c) else owing resp.mrid c) c
      taken_Alike true = (refl, refl, refl)
      taken_Alike false = (refl, refl, refl)

  acknowledge_each-Alike :
      (now : ℤ) (list : List FlowResponse) (c : Current) (w : W)
      → Alike (acknowledge_each client cf now list c w).0 c
  unfolding acknowledge_each
  acknowledge_each-Alike now [] c w = (refl, refl, refl)
  acknowledge_each-Alike now (resp ∷ rest) c w =
      let c1 = (acknowledge client cf now resp c w).0 in
      let mine = str_eq resp.subject c.mrid in
      let (f, g, h) = if_Alike mine c1 c (acknowledge-Alike now resp c w) in
      let (f', g', h') = acknowledge_each-Alike now rest (if mine then c1 else c) _ in
      (f' ∙ f, g' ∙ g, h' ∙ h)

  handle_read-IsSound :
      (i : ℕ) (now : ℤ) (answer : Option (List FlowResponse × ℕ)) (r : Reserver) (w : W)
      → r.cur ≡ some i
      → (r.heap i).done ≡ false
      → IsSound r
      → IsSound (handle_read client cf i now answer r w).0
  unfolding handle_read acknowledge_all update
  handle_read-IsSound i now none r w e d h = h
  handle_read-IsSound i now (some (list, all)) r w e d h =
      let r1 = update client.scaled cf i now list r in
      elim (Bool-cases (ltb (length list % 2 ^ 32) all)) [
        | inl f ↦ rw f h
        | inr f ↦ rw f (
            store-Grants i (acknowledge_each client cf now list (r1.heap i) w).0 r1.heap r1.cur
              r1.grant e (acknowledge_each-Alike now list (r1.heap i) w)
              (update-IsSound client.scaled cf i now list r e d))
      ]

  poll_cur-IsSound :
      (i : ℕ) (r : Reserver) (w : W)
      → r.cur ≡ some i
      → IsSound r
      → IsSound (poll_cur client cf i r w).0
  unfolding poll_cur finish
  poll_cur-IsSound i r w e h =
      let c = r.heap i in
      let (now, w1) = client.now w in
      elim (Bool-cases c.done) [
        | inl d ↦ rw d h
        | inr d ↦ elim (Bool-cases (ltb_ℤ now (c.facts.until +ℤ grace cf))) [
          | inr f ↦ rw (d, f) tt
          | inl f ↦ elim (Bool-cases (ltb_ℤ now r.next_poll)) [
            | inl g ↦ rw (d, f, g) h
            | inr g ↦
                rw (d, f, g)
                  (handle_read-IsSound i now _ (record r { next_poll = now +ℤ sec cf.poll_s }) _ e d
                    h)
          ]
        ]
      ]

  pub poll_followed-IsSound :
      (o : Option ℕ) (r : Reserver) (w : W)
      → r.cur ≡ o
      → IsSound r
      → IsSound (poll_followed client cf o r w).0
  poll_followed-IsSound none r w e h = h
  poll_followed-IsSound (some i) r w e h = poll_cur-IsSound i r w e h
