-- ===== src/Reservation/Reading.antt =====
-- The reading of the answer in cmd/inverterclient/reservation.go: Poll, finish, acknowledge and
-- newestResponseMRID.
use ieee_2030_5_client_go.Shared.{
  ℕ, ◌%◌, ◌^◌, Bool, true, false, not, ◌&&◌, ◌||◌, List, [], ◌∷◌, length, Option, none, some,
  String, str_eq, listed, ltb, if◌then◌else◌, ℤ, ◌+ℤ◌, ltb_ℤ, sec,
}
use ieee_2030_5_client_go.Shared.Float.{Float}
use ieee_2030_5_client_go.Reservation.{FlowResponse}
use ieee_2030_5_client_go.Reservation.Request.{unix}
use ieee_2030_5_client_go.Reservation.Answer.{
  dispatches, GrantTerms, choose_from, not_before, judge,
}
use ieee_2030_5_client_go.Reservation.Reserver.{Client, Config, Current, Reserver, write, grace}
use ieee_2030_5_client_go.Reservation.Withdrawing.{retry_withdrawals}
use ieee_2030_5_client_go.Responses.{bit_0}

-- newestResponseMRID.
unfoldable pub newest_response_mrid : List FlowResponse → String → String
newest_response_mrid list subject =
    elim (choose_from (λ r. str_eq r.subject subject) not_before none list) [
      | none ↦ ""
      | some r ↦ r.mrid
    ]

-- finish.
unfoldable pub finish : ℕ → Reserver → Reserver
finish i r = record r { heap = write i (record (r.heap i) { done = true }) r.heap; grant = none }

unfoldable pub is_received_required : FlowResponse → Bool
is_received_required resp = elim resp.response_required [
  | none ↦ false
  | some mask ↦ bit_0 (mask % 2 ^ 8)
]

unfoldable pub add_once : String → List String → List String
add_once m ms = if listed m ms then ms else m ∷ ms

unfoldable pub remove : String → List String → List String
remove m [] = []
remove m (k ∷ ks) = let rest = remove m ks in if str_eq k m then rest else k ∷ rest

-- acknowledge up to its post, and after one that the server took: the sets of mRIDs.
unfoldable pub owing : String → Current → Current
owing m c = record c { owed = add_once m c.owed }

unfoldable pub settled : String → Current → Current
settled m c = record c { acked = add_once m c.acked; owed = remove m c.owed }

-- ResponseStatusEventReceived.
abbrev status_received : ℕ
status_received = 1

-- The part of judge's answer that Poll stores, and the grant that it installs.
unfoldable pub judged : (ℤ → ℤ → Float) → Config → ℤ → List FlowResponse → Current → Current
judged scaled cf now list c =
    let (kind, terms) = judge scaled list c.mrid c.facts (grace cf) now in
    record c {
      kind = kind;
      terms = terms;
      resp_mrid =
          if str_eq terms.response_mrid ""
          then newest_response_mrid list c.mrid
          else terms.response_mrid;
    }

unfoldable pub granted_by : Current → Option GrantTerms
granted_by c = if dispatches c.kind && not c.withdrawn then some c.terms else none

-- Poll, from a list that is whole, to the grant.
unfoldable pub update : (ℤ → ℤ → Float) → Config → ℕ → ℤ → List FlowResponse → Reserver → Reserver
update scaled cf i now list r =
    let c = judged scaled cf now list (r.heap i) in
    record r { heap = write i c r.heap; grant = granted_by c }

module _ {W : Type 0} (client : Client W) (cf : Config) where
  -- acknowledge.
  unfoldable pub acknowledge : ℤ → FlowResponse → Current → W → Current × W
  acknowledge now resp c w =
      let owed = owing resp.mrid c in
      let (taken, w1) =
        client.post_receipt resp.reply_to
          (record {
            created = unix now;
            lfdi = cf.self_lfdi;
            status = status_received;
            subject = resp.mrid;
          })
          w in
      if not (is_received_required resp)
        || (str_eq resp.reply_to "" || (str_eq resp.mrid "" || listed resp.mrid c.acked))
      then (c, w)
      else ((if taken then settled resp.mrid owed else owed), w1)

  -- The loop at the end of Poll.
  unfoldable pub acknowledge_each : ℤ → List FlowResponse → Current → W → Current × W
  acknowledge_each now [] c w = (c, w)
  acknowledge_each now (resp ∷ rest) c w =
      let (c1, w1) = acknowledge now resp c w in
      let mine = str_eq resp.subject c.mrid in
      acknowledge_each now rest (if mine then c1 else c) (if mine then w1 else w)

  unfoldable pub acknowledge_all : ℕ → ℤ → List FlowResponse → Reserver → W → Reserver × W
  acknowledge_all i now list r w =
      let (c, w1) = acknowledge_each now list (r.heap i) w in
      (record r { heap = write i c r.heap }, w1)

  -- Poll, from what the read gave.
  unfoldable pub handle_read : ℕ → ℤ → Option (List FlowResponse × ℕ) → Reserver → W → Reserver × W
  handle_read i now none r w = (r, w)
  handle_read i now (some (list, all)) r w =
      if ltb (length list % 2 ^ 32) all
      then (r, w)
      else acknowledge_all i now list (update client.scaled cf i now list r) w

  -- Poll, of the request being followed.
  unfoldable pub poll_cur : ℕ → Reserver → W → Reserver × W
  poll_cur i r w =
      let (now, w1) = client.now w in
      let (answer, w2) = client.get_responses cf.resp_href w1 in
      let c = r.heap i in
      if c.done
      then (r, w)
      else if not (ltb_ℤ now (c.facts.until +ℤ grace cf))
      then (finish i r, w1)
      else if ltb_ℤ now r.next_poll
      then (r, w1)
      else handle_read i now answer (record r { next_poll = now +ℤ sec cf.poll_s }) w2

  abbrev pub poll_followed : Option ℕ → Reserver → W → Reserver × W
  poll_followed none r w = (r, w)
  poll_followed (some i) r w = poll_cur i r w

  -- Poll.
  unfoldable pub poll : Reserver → W → Reserver × W
  poll r w = let (r1, w1) = retry_withdrawals client cf r w in poll_followed r1.cur r1 w1
