-- ===== src/Reservation/Withdrawing.antt =====
-- The operations of cmd/inverterclient/reservation.go that post and withdraw requests: withdraw,
-- retryWithdrawals, Withdraw and Trigger.
use ieee_2030_5_client_go.Shared.{
  ℕ, suc, true, false, not, ◌||◌, List, [], ◌∷◌, Option, none, some, String, str_eq, if◌then◌else◌,
  ℤ, ◌+ℤ◌, ltb_ℤ,
}
use ieee_2030_5_client_go.Reservation.{FlowRequest, Overlay}
use ieee_2030_5_client_go.Reservation.Request.{
  apply_overlay, Built, built, refused, build_flow_request, facts_of,
}
use ieee_2030_5_client_go.Reservation.Answer.{pending, no_terms}
use ieee_2030_5_client_go.Reservation.Reserver.{
  Client, Config, Current, Stale, Reserver, write, grace, Attempt, cancelled_request, after_put,
  later_if, is_cur, drop_grant, keep_stale, prepend, retryable,
}

module _ {W : Type 0} (client : Client W) where
  -- withdraw.
  unfoldable pub withdraw : ℕ → ℤ → (ℕ → Current) → W → Attempt × (ℕ → Current) × W
  withdraw i now heap w =
      let c = heap i in
      let (answer, w1) = client.put_request c.href (cancelled_request c now) w in
      let (attempt, heap1) = after_put answer i heap in
      if c.done || (c.withdrawn || str_eq c.href "")
      then (retryable, heap, w)
      else (attempt, heap1, w1)

  -- The attempt of one round of retryWithdrawals.
  unfoldable pub retry_due : ℤ → Stale → Reserver → W → Option Stale × Reserver × W
  retry_due now s r w =
      let (attempt, heap1, w1) = withdraw s.id now r.heap w in
      (
        keep_stale attempt now s,
        record r { heap = heap1; grant = drop_grant attempt (is_cur s.id r.cur) r.grant },
        w1,
      )

  module _ (cf : Config) where
    -- One round of the loop of retryWithdrawals: what is kept of the entry.
    unfoldable pub retry_one : ℤ → Stale → Reserver → W → Option Stale × Reserver × W
    retry_one now s r w =
        let c = r.heap s.id in
        if c.withdrawn || not (ltb_ℤ now (c.facts.until +ℤ grace cf))
        then (none, r, w)
        else if ltb_ℤ now s.next
        then (some s, r, w)
        else retry_due now s r w

    unfoldable pub retry_each : ℤ → List Stale → Reserver → W → List Stale × Reserver × W
    retry_each now [] r w = ([], r, w)
    retry_each now (s ∷ ss) r w =
        let (kept, r1, w1) = retry_one now s r w in
        let (rest, r2, w2) = retry_each now ss r1 w1 in (prepend kept rest, r2, w2)

    -- retryWithdrawals, on the entries kept so far.
    unfoldable pub retry_stale : List Stale → Reserver → W → Reserver × W
    retry_stale [] r w = (r, w)
    retry_stale (s ∷ ss) r w =
        let (now, w1) = client.now w in
        let (kept, r1, w2) = retry_each now (s ∷ ss) r w1 in (record r1 { stale = kept }, w2)

    unfoldable pub retry_withdrawals : Reserver → W → Reserver × W
    retry_withdrawals r w = retry_stale r.stale r w

    -- Withdraw, of the request being followed.
    unfoldable pub withdraw_cur : ℕ → Reserver → W → Reserver × W
    withdraw_cur i r w =
        let (now, w1) = client.now w in
        let (attempt, heap1, w2) = withdraw i now r.heap w1 in
        let r1 = record r { heap = heap1; grant = drop_grant attempt true r.grant } in
        let c = r.heap i in
        if c.done || c.withdrawn then (r, w) else (later_if cf attempt i now r1, w2)

    -- Withdraw.
    unfoldable pub withdraw_followed : Option ℕ → Reserver → W → Reserver × W
    withdraw_followed none r w = (r, w)
    withdraw_followed (some i) r w = withdraw_cur i r w

    -- The withdrawal of the request that Trigger replaces.
    unfoldable pub replace_old : Option ℕ → ℤ → Reserver → W → Reserver × W
    replace_old none now r w = (r, w)
    replace_old (some i) now r w =
        let (attempt, heap1, w1) = withdraw i now r.heap w in
        (later_if cf attempt i now (record r { heap = heap1 }), w1)

    -- The currentRequest that Trigger makes, and the state that follows it.
    unfoldable pub new_request : FlowRequest → String → String → Current
    new_request req mrid loc = record {
      facts = facts_of client.scaled req;
      mrid = mrid;
      href = loc;
      req = req;
      kind = pending;
      terms = no_terms;
      resp_mrid = "";
      withdrawn = false;
      done = false;
      acked = [];
      owed = [];
    }

    unfoldable pub follow : FlowRequest → String → String → ℤ → Reserver → Reserver
    follow req mrid loc now r = record r {
      heap = write r.fresh (new_request req mrid loc) r.heap;
      fresh = suc r.fresh;
      cur = some r.fresh;
      next_poll = now;
      grant = none;
    }

    -- Trigger, from what its calls gave: the post, the building of the request, the mRID and the
    -- request file.
    unfoldable pub after_post :
        Option String → FlowRequest → String → ℤ → Reserver → W → Reserver × W
    after_post none req mrid now r w = (r, w)
    after_post (some loc) req mrid now r w =
        let (r1, w1) = replace_old r.cur now r w in (follow req mrid loc now r1, w1)

    unfoldable pub after_build : Built → String → ℤ → Reserver → W → Reserver × W
    after_build (refused e) mrid now r w = (r, w)
    after_build (built req) mrid now r w =
        let (answer, w1) = client.post_request cf.req_href req w in
        after_post answer req mrid now r w1

    unfoldable pub after_mrid : Option String → Overlay → ℤ → Reserver → W → Reserver × W
    after_mrid none overlay now r w = (r, w)
    after_mrid (some mrid) overlay now r w =
        after_build (build_flow_request (apply_overlay overlay cf.settings) now mrid) mrid now r w

    unfoldable pub after_overlay : Option Overlay → Reserver → W → Reserver × W
    after_overlay none r w = (r, w)
    after_overlay (some overlay) r w =
        let (now, w1) = client.now w in
        let (made, w2) = client.new_mrid cf.self_lfdi now w1 in after_mrid made overlay now r w2

    -- Trigger.
    unfoldable pub trigger : Reserver → W → Reserver × W
    trigger r w = let (given, w1) = client.consume_overlay w in after_overlay given r w1
