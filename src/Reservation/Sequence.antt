-- ===== src/Reservation/Sequence.antt =====
-- The calls that the main loop makes of the reserver of cmd/inverterclient/reservation.go, in any
-- order, and what they keep up.
use ieee_2030_5_client_go.Shared.{
  ℕ, ◌≡◌, refl, sym, subst, true, ◌||◌, List, [], ◌∷◌, Option, none, some, String, ℤ, ltb_ℤ, ◌+ℤ◌,
  ltb, length, ◌%◌, ◌^◌, Bool-cases, inl, inr,
}
use ieee_2030_5_client_go.Reservation.{FlowResponse, Overlay}
use ieee_2030_5_client_go.Reservation.Request.{Built, built, refused}
use ieee_2030_5_client_go.Reservation.Reserver.{Client, Config, Stale, Reserver, grace, drop_grant}
use ieee_2030_5_client_go.Reservation.Withdrawing.{
  withdraw, retry_stale, retry_withdrawals, withdraw_cur, withdraw_followed, replace_old, follow,
  after_post, after_build, after_mrid, after_overlay, trigger,
}
use ieee_2030_5_client_go.Reservation.Reading.{
  finish, update, acknowledge_all, handle_read, poll_cur, poll_followed, poll,
}
use ieee_2030_5_client_go.Reservation.Withdrawn.{IsSound}
use ieee_2030_5_client_go.Reservation.Followed.{
  retry_stale-IsSound, withdraw_followed-IsSound, after_overlay-IsSound, poll_followed-IsSound,
}
use ieee_2030_5_client_go.Reservation.Backoff.{IsTidy, later-IsTidy, retry_each-IsTidy}

-- What the main loop calls: Trigger, Withdraw and Poll.
pub data Call : Type 0 where
  triggering withdrawing polling : Call

module _ {W : Type 0} (client : Client W) (cf : Config) where
  unfoldable pub call : Call → Reserver → W → Reserver × W
  call triggering r w = trigger client cf r w
  call withdrawing r w = withdraw_followed client cf r.cur r w
  call polling r w = poll client cf r w

  unfoldable pub calls : List Call → Reserver → W → Reserver × W
  calls [] r w = (r, w)
  calls (k ∷ ks) r w = let (r1, w1) = call k r w in calls ks r1 w1

  call-IsSound : (k : Call) (r : Reserver) (w : W) → IsSound r → IsSound (call k r w).0
  unfolding call trigger poll retry_withdrawals
  call-IsSound triggering r w h = after_overlay-IsSound client cf _ r _ h
  call-IsSound withdrawing r w h = withdraw_followed-IsSound client cf r.cur r w refl h
  call-IsSound polling r w h =
      poll_followed-IsSound client cf _ _ _ refl (retry_stale-IsSound client cf r.stale r w h)

  -- From a state in which the grant, if there is one, is of the request being followed, neither
  -- withdrawn nor finished, and keeps to that request, any calls lead to such a state, whatever the
  -- server, the clock and the request file answer.
  pub calls-IsSound : (ks : List Call) (r : Reserver) (w : W) → IsSound r → IsSound (calls ks r w).0
  unfolding calls
  calls-IsSound [] r w h = h
  calls-IsSound (k ∷ ks) r w h = calls-IsSound ks _ _ (call-IsSound k r w h)

  retry_stale-IsTidy :
      (ss : List Stale) (r : Reserver) (w : W)
      → r.stale ≡ ss
      → IsTidy cf ss
      → IsTidy cf (retry_stale client cf ss r w).0.stale
  unfolding retry_stale
  retry_stale-IsTidy [] r w e h = subst (IsTidy cf) (sym e) h
  retry_stale-IsTidy (s ∷ ss) r w e h = retry_each-IsTidy client cf _ (s ∷ ss) r _ h

  withdraw_followed-IsTidy :
      (o : Option ℕ) (r : Reserver) (w : W)
      → IsTidy cf r.stale
      → IsTidy cf (withdraw_followed client cf o r w).0.stale
  unfolding withdraw_followed withdraw_cur
  withdraw_followed-IsTidy none r w h = h
  withdraw_followed-IsTidy (some i) r w h =
      let c = r.heap i in
      let (now, w1) = client.now w in
      let (attempt, heap1, w2) = withdraw client i now r.heap w1 in
      let r1 = record r { heap = heap1; grant = drop_grant attempt true r.grant } in
      elim (Bool-cases (c.done || c.withdrawn)) [
        | inl f ↦ rw f h
        | inr f ↦ rw f (later-IsTidy cf attempt i now r1 h)
      ]

  replace_old-IsTidy :
      (o : Option ℕ) (now : ℤ) (r : Reserver) (w : W)
      → IsTidy cf r.stale
      → IsTidy cf (replace_old client cf o now r w).0.stale
  unfolding replace_old
  replace_old-IsTidy none now r w h = h
  replace_old-IsTidy (some i) now r w h =
      let (attempt, heap1, w1) = withdraw client i now r.heap w in
      later-IsTidy cf attempt i now (record r { heap = heap1 }) h

  after_build-IsTidy :
      (b : Built) (mrid : String) (now : ℤ) (r : Reserver) (w : W)
      → IsTidy cf r.stale
      → IsTidy cf (after_build client cf b mrid now r w).0.stale
  unfolding after_build after_post follow replace_old
  after_build-IsTidy (refused e) mrid now r w h = h
  after_build-IsTidy (built req) mrid now r w h = posted _ _
    where
      posted :
          (o : Option String) (w1 : W)
          → IsTidy cf (after_post client cf o req mrid now r w1).0.stale
      posted none w1 = h
      posted (some loc) w1 = replace_old-IsTidy r.cur now r w1 h

  after_overlay-IsTidy :
      (o : Option Overlay) (r : Reserver) (w : W)
      → IsTidy cf r.stale
      → IsTidy cf (after_overlay client cf o r w).0.stale
  unfolding after_overlay after_mrid
  after_overlay-IsTidy none r w h = h
  after_overlay-IsTidy (some overlay) r w h = named _ _ _
    where
      named :
          (o : Option String) (now : ℤ) (w1 : W)
          → IsTidy cf (after_mrid client cf o overlay now r w1).0.stale
      named none now w1 = h
      named (some mrid) now w1 = after_build-IsTidy _ mrid now r w1 h

  -- Neither the read nor what follows it changes what is to be withdrawn.
  handle_read-stale :
      (i : ℕ) (now : ℤ) (answer : Option (List FlowResponse × ℕ)) (r : Reserver) (w : W)
      → (handle_read client cf i now answer r w).0.stale ≡ r.stale
  unfolding handle_read acknowledge_all update
  handle_read-stale i now none r w = refl
  handle_read-stale i now (some (list, all)) r w =
      elim (Bool-cases (ltb (length list % 2 ^ 32) all)) [ inl e ↦ rw e refl | inr e ↦ rw e refl ]

  poll_followed-stale :
      (o : Option ℕ) (r : Reserver) (w : W) → (poll_followed client cf o r w).0.stale ≡ r.stale
  unfolding poll_cur finish
  poll_followed-stale none r w = refl
  poll_followed-stale (some i) r w =
      let c = r.heap i in
      let (now, w1) = client.now w in
      elim (Bool-cases c.done) [
        | inl d ↦ rw d refl
        | inr d ↦ elim (Bool-cases (ltb_ℤ now (c.facts.until +ℤ grace cf))) [
          | inr f ↦ rw (d, f) refl
          | inl f ↦ elim (Bool-cases (ltb_ℤ now r.next_poll)) [
            | inl g ↦ rw (d, f, g) refl
            | inr g ↦ rw (d, f, g) (handle_read-stale i now _ _ _)
          ]
        ]
      ]

  call-IsTidy :
      (k : Call) (r : Reserver) (w : W) → IsTidy cf r.stale → IsTidy cf (call k r w).0.stale
  unfolding call trigger poll retry_withdrawals
  call-IsTidy triggering r w h = after_overlay-IsTidy _ r _ h
  call-IsTidy withdrawing r w h = withdraw_followed-IsTidy r.cur r w h
  call-IsTidy polling r w h =
      let (r1, w1) = retry_stale client cf r.stale r w in
      subst (IsTidy cf) (sym (poll_followed-stale r1.cur r1 w1))
        (retry_stale-IsTidy r.stale r w refl h)

  -- From a state that keeps no request twice for a later withdrawal, each with a wait between the
  -- lesser and the greater of the poll interval and five minutes, any calls lead to such a state,
  -- whatever the server, the clock and the request file answer.
  pub calls-IsTidy :
      (ks : List Call) (r : Reserver) (w : W) → IsTidy cf r.stale → IsTidy cf (calls ks r w).0.stale
  unfolding calls
  calls-IsTidy [] r w h = h
  calls-IsTidy (k ∷ ks) r w h = calls-IsTidy ks _ _ (call-IsTidy k r w h)
