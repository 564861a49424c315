-- ===== src/Examples/Requests.antt =====
-- The request guard and the cache of controls at concrete inputs.
use ieee_2030_5_client_go.Shared.{
  ℕ, ◌+◌, ◌≡◌, ◌≢◌, refl, ◌↔◌, false, [], ◌∷◌, none, some, String, str_eq, eq_iff, arith, pos, ◌+ℤ◌,
}
use ieee_2030_5_client_go.Shared.Map.{lookup, string_eq}
use ieee_2030_5_client_go.Sep2.{DerControl}
use ieee_2030_5_client_go.ControlCache.{ListResult}
use ieee_2030_5_client_go.RequestGuard.{
  kind_method, is_self, allows_other, manages, manager_kinds, aggregator, Action, Casing, Guard,
  allow, der_resource_write, response_post,
}
use ieee_2030_5_client_go.RequestGuard.Permitted.{Verb, Permitted}
use ieee_2030_5_client_go.RequestGuard.Policy.{allow_iff}
use ieee_2030_5_client_go.RequestGuard.Guarded.{get, post, put, Guards, guarded_requests}
use ieee_2030_5_client_go.RequestGuard.RefusalLog.{log_refusal, log_all, log_refusal_once}

abbrev exact_case : Casing
exact_case = record { to_upper = λ s. s; equal_fold = str_eq }

abbrev manager : Guard
manager = record {
  role = aggregator;
  self_lfdi = "A0";
  managed = some (λ lfdi. str_eq lfdi "B1");
  allow_in_band_delete = false;
  allow_in_band_create = false;
}

abbrev write_status : Action
write_status = record { kind = der_resource_write; target_lfdi = "B1" }

abbrev foreign : Action
foreign = record { kind = response_post; target_lfdi = "C2" }

allows_managed : allow exact_case (some manager) "PUT" write_status ≡ none
unfolding allow kind_method is_self allows_other manages manager_kinds
allows_managed = refl

allow_iff_example :
    (allow exact_case (some manager) "PUT" write_status ≡ none)
    ↔ (Verb der_resource_write "PUT" × Permitted exact_case manager write_status)
allow_iff_example = allow_iff exact_case manager "PUT" write_status

-- The transport counts its requests.
abbrev counter : ℕ → ℕ × ℕ
counter n = (n, n + 1)

guarded_requests_example :
    Guards exact_case
      (some manager)
      counter
      "GET"
      foreign
      none
      0
      (get exact_case (some manager) counter foreign 0)
    × Guards exact_case
        (some manager)
        counter
        "POST"
        foreign
        (some "A0")
        0
        (post exact_case (some manager) counter foreign (some "A0") 0)
    × Guards exact_case
        (some manager)
        counter
        "PUT"
        foreign
        (some "A0")
        0
        (put exact_case (some manager) counter foreign (some "A0") 0)
guarded_requests_example = guarded_requests exact_case (some manager) counter foreign (some "A0") 0

log_refusal_once_example :
    (log_refusal (pos 30) (pos 20) "PUT C2" (
      log_all
        (pos 30)
        (("GET C2", pos 10) ∷ ("PUT C2", pos 15) ∷ [])
        (log_refusal (pos 30) (pos 0) "PUT C2" []).0)).1
    ≡ false
unfolding log_refusal lookup ◌+ℤ◌
log_refusal_once_example =
    log_refusal_once (pos 30) (pos 0) (pos 20) "PUT C2"
      (("GET C2", pos 10) ∷ ("PUT C2", pos 15) ∷ []) [] (ground arith) refl
      (ground arith, ground arith, (ground arith, ground arith, tt)) (ground arith) (ground arith)

abbrev control : String → DerControl
control m = record {
  mrid = m;
  interval = none;
  randomize_start = none;
  randomize_duration = none;
  status = none;
  reply_to = "";
  response_required = none;
  payload = 7;
}

-- A list of two controls, one of them refused.
abbrev polled : ListResult
polled = record {
  der_control = control "good" ∷ control "bad" ∷ [];
  rejected = record { event = control "bad"; err = "opModFixedVar" } ∷ [];
}

named : (m : String) → str_eq m "" ≡ false → m ≢ ""
named m h = ground (arith, eq_iff m "")
