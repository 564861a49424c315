-- ===== src/Examples/SidecarClient.antt =====
-- The theorems about the client of a sidecar, at a sidecar that answers each request with its name.
use ieee_2030_5_client_go.Shared.{
  ℕ, ◌≡◌, refl, true, false, Option, none, some, List, [], ◌∷◌, String, pos, arith, ◌+◌,
}
use ieee_2030_5_client_go.SidecarClient.{
  no_args, get_items, GetItem, Link, WireReply, Conn, err, connection_broken, Attempt, answered,
  read_fails, timed_out, io, cancelled, Use, calls, use_all, call, dial_client, mark_broken,
}
use ieee_2030_5_client_go.SidecarClient.Operations.{Codec, GetResult, get_values, get_want, get_got}
use ieee_2030_5_client_go.SidecarClient.Served.{IsAnswer, dialed-call-IsAnswer}
use ieee_2030_5_client_go.SidecarClient.Stopped.{use_all-broken}
use ieee_2030_5_client_go.SidecarClient.Cancelled.{
  use_all-call-told, told, IsServing, is_worker_dead,
}
use ieee_2030_5_client_go.SidecarClient.Items.{get_values-ok}

accepted : ℕ × String → Option (WireReply String)
accepted (id, op) = some (record { id = id; is_ok = true; result = op; error = none })

abbrev echo : Link ℕ String (ℕ × String) ℕ
echo = record {
  marshal = λ q. some (q.id, q.op);
  unmarshal = accepted;
  serve = λ line m. (line, m + 1);
}

abbrev decoders : Codec ℕ String
decoders = record {
  hello_result = λ raw. none;
  set_results = λ raw. none;
  get_results = λ raw.
      some (record { object = "bat1"; property = "P_Out"; value = 7; model_time = raw } ∷ []);
  text = λ raw. some raw;
  format_time = λ t. "";
  parse_time = λ s. none;
}

-- An attempt that waits for its reply, one whose caller gives up, and one that times out.
abbrev waits : Attempt
waits = record {
  early = false;
  ctx_err = none;
  deadline_set = true;
  trip = answered;
  gives_up = none;
}

abbrev leaves : Attempt
leaves = record waits { gives_up = some cancelled }

abbrev hangs : Attempt
hangs = record waits { trip = read_fails timed_out }

abbrev fresh : Conn (ℕ × String) ℕ
fresh = record {
  client = record { next_id = 0; timeout = pos 10; broken = none };
  closed = false;
  owed = [];
  model = 0;
}

abbrev abandoned : List (Use ℕ)
abandoned = calls leaves "set" no_args ∷ calls waits "step_to" no_args ∷ []

dialed-call-IsAnswer_example :
    IsAnswer echo "get" no_args "get"
      (use_all echo abandoned fresh)
      (call echo waits "get" no_args (use_all echo abandoned fresh)).1
unfolding dial_client use_all call accepted
dialed-call-IsAnswer_example =
    dialed-call-IsAnswer echo (pos 10) 0 fresh abandoned waits "get" no_args "get" refl refl

abbrev stopped : Conn (ℕ × String) ℕ
stopped = record fresh {
  client = record fresh.client { broken = some (io timed_out) };
  closed = true;
}

use_all-broken_example :
    ((use_all echo abandoned stopped).client.broken ≡ some (io timed_out))
    × ((use_all echo abandoned stopped).model ≡ 0)
    × ((use_all echo abandoned stopped).owed ≡ [])
    × (call echo waits "get" no_args (use_all echo abandoned stopped)
        ≡ (err connection_broken, use_all echo abandoned stopped))
use_all-broken_example =
    use_all-broken echo abandoned waits "get" no_args stopped (io timed_out) refl

echo_serves : IsServing echo
unfolding accepted is_worker_dead
echo_serves q (id, op) e m =
    (record { id = id; is_ok = true; result = op; error = none }, refl, ground arith, refl)

use_all-call-told_example :
    ((call echo waits "get" no_args (use_all echo abandoned fresh)).1.client.broken ≡ none)
    × ((r : WireReply String) × (accepted
            (echo.serve (2, "get") (use_all echo abandoned fresh).model).0
          ≡ some r)
        × (r.id ≡ (use_all echo abandoned fresh).client.next_id)
        × ((call echo waits "get" no_args (use_all echo abandoned fresh)).0 ≡ told r))
unfolding use_all accepted call
use_all-call-told_example =
    use_all-call-told echo abandoned waits "get" no_args fresh (2, "get") echo_serves
      ((refl, refl), ((refl, refl), tt)) (refl, refl, refl, (refl, refl)) (refl, refl, refl) refl

abbrev asked : List GetItem
asked = record { object = "bat1"; property = "P_Out" } ∷ []

abbrev given : List (GetResult ℕ)
given = record { object = "bat1"; property = "P_Out"; value = 7; model_time = "get" } ∷ []

get_values-ok_example :
    (get_got given ≡ get_want asked)
    × ((raw : String) × (decoders.get_results raw ≡ some given)
        × IsAnswer echo "get"
            (get_items asked)
            raw
            fresh
            (get_values echo decoders waits asked fresh).1)
unfolding get_values call accepted
get_values-ok_example = get_values-ok echo decoders waits asked fresh given (λ h. refl) refl

-- A read that times out breaks the connection, and the next call is refused.
hangs_test :
    (call echo waits "get" no_args (use_all echo (calls hangs "get" no_args ∷ []) fresh)).0
    ≡ err connection_broken
unfolding call use_all accepted mark_broken
hangs_test = refl
