-- ===== src/SidecarClient/Operations.antt =====
-- internal/sim/gridlabd/client.go: the operations of the sidecar's protocol, each one call and the
-- decoding of its result. The decoders of encoding/json and the layouts of time are fields of Codec.
use ieee_2030_5_client_go.Shared.{
  ℕ, Bool, true, false, not, ◌&&◌, Option, none, some, List, [], ◌∷◌, map, String, str_eq, ℤ,
  if◌then◌else◌, ◌==◌, length,
}
use ieee_2030_5_client_go.SidecarClient.{
  no_args, protocol, set_items, get_items, time, SetItem, GetItem, Link, Conn, Result, ok, err,
  Attempt, call, decode, mismatch,
}

-- HelloResult.
pub record HelloResult : Type 0 where
  pub protocol_number : ℕ
  pub gridlabd_version : String
  pub python_version : String
  pub fleet : String
  pub objects : List (String × List String)

-- SetResult.
pub record SetResult (V : Type 0) : Type 0 where
  pub object : String
  pub property : String
  pub value : V

-- GetResult.
pub record GetResult (V : Type 0) : Type 0 where
  pub object : String
  pub property : String
  pub value : V
  pub model_time : String

pub record Codec (V Raw : Type 0) : Type 0 where
  pub hello_result : Raw → Option HelloResult
  pub set_results : Raw → Option (List (SetResult V))
  pub get_results : Raw → Option (List (GetResult V))
  pub text : Raw → Option String
  pub format_time : ℤ → String
  pub parse_time : String → Option ℤ

-- ProtocolVersion.
abbrev pub protocol_version : ℕ
protocol_version = 1

-- objProp.
pub record ObjProp : Type 0 where
  pub object : String
  pub property : String

same_obj_prop : ObjProp → ObjProp → Bool
same_obj_prop a b = str_eq a.object b.object && str_eq a.property b.property

-- The loop of validateReplyMatchesRequest, for lists of one length.
unfoldable pub in_order : List ObjProp → List ObjProp → Bool
unfolding same_obj_prop
in_order [] got = true
in_order (w ∷ want) [] = true
in_order (w ∷ want) (g ∷ got) = if not (same_obj_prop g w) then false else in_order want got

-- validateReplyMatchesRequest, true for no error.
unfoldable pub validate_reply_matches_request : List ObjProp → List ObjProp → Bool
unfolding in_order
validate_reply_matches_request want got =
    if not (length got == length want) then false else in_order want got

abbrev pub set_want : {V : Type 0} → List (SetItem V) → List ObjProp
set_want = map (λ it. record { object = it.object; property = it.property })

abbrev pub set_got : {V : Type 0} → List (SetResult V) → List ObjProp
set_got = map (λ r. record { object = r.object; property = r.property })

abbrev pub get_want : List GetItem → List ObjProp
get_want = map (λ it. record { object = it.object; property = it.property })

abbrev pub get_got : {V : Type 0} → List (GetResult V) → List ObjProp
get_got = map (λ r. record { object = r.object; property = r.property })

-- Decoding the result of a call that succeeded.
unfoldable pub read_as : {A Raw : Type 0} → (Raw → Option A) → Result Raw → Result A
read_as f (err e) = err e
read_as f (ok raw) = elim (f raw) [ none ↦ err decode | some a ↦ ok a ]

unfoldable pub checked : {A : Type 0} → (A → Bool) → Result A → Result A
checked p (err e) = err e
checked p (ok a) = if p a then ok a else err mismatch

forget : {A : Type 0} → Result A → Result (Unit {0})
forget (err e) = err e
forget (ok a) = ok tt

module _ {V Raw Line Model : Type 0} (link : Link V Raw Line Model) (codec : Codec V Raw) where
  -- Client.Hello.
  unfoldable pub hello : Attempt → Conn Line Model → Result HelloResult × Conn Line Model
  unfolding read_as
  hello a c =
      let (r, c') = call link a "hello" (protocol protocol_version) c in
      (read_as codec.hello_result r, c')

  -- Client.Set.
  unfoldable pub set_values :
      Attempt → List (SetItem V) → Conn Line Model → Result (List (SetResult V)) × Conn Line Model
  unfolding read_as checked validate_reply_matches_request
  set_values a items c =
      let (r, c') = call link a "set" (set_items items) c in
      let matching =
        λ (rs : List (SetResult V)). validate_reply_matches_request (set_want items) (set_got rs) in
      (checked matching (read_as codec.set_results r), c')

  -- Client.Get.
  unfoldable pub get_values :
      Attempt → List GetItem → Conn Line Model → Result (List (GetResult V)) × Conn Line Model
  unfolding read_as checked validate_reply_matches_request
  get_values a items c =
      let (r, c') = call link a "get" (get_items items) c in
      let matching =
        λ (rs : List (GetResult V)). validate_reply_matches_request (get_want items) (get_got rs) in
      (checked matching (read_as codec.get_results r), c')

  -- Client.StepTo.
  unfoldable pub step_to : Attempt → ℤ → Conn Line Model → Result ℤ × Conn Line Model
  unfolding read_as
  step_to a target c =
      let (r, c') = call link a "step_to" (time (codec.format_time target)) c in
      (read_as codec.parse_time (read_as codec.text r), c')

  -- Client.Shutdown.
  unfoldable pub shutdown_sidecar : Attempt → Conn Line Model → Result (Unit {0}) × Conn Line Model
  unfolding forget
  shutdown_sidecar a c = let (r, c') = call link a "shutdown" no_args c in (forget r, c')
