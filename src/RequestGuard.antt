-- ===== src/RequestGuard.antt =====
-- internal/inverter/guard/guard.go: which requests a process may send, by its role, the HTTP method,
-- the kind of the action and the device it names. The two case-insensitive comparisons of LFDIs,
-- strings.ToUpper and strings.EqualFold, are parameters.
pub mod Permitted
pub mod Policy
pub mod RefusalLog
pub mod Guarded
use ieee_2030_5_client_go.Shared.{
  ℕ, Bool, true, false, not, ◌&&◌, ◌||◌, List, [], ◌∷◌, Option, none, some, String, str_eq,
  if◌then◌else◌, listed, ℤ,
}

pub data Role : Type 0 where
  der aggregator : Role

-- ParseRole: none is its error.
unfoldable pub parse_role : String → Option Role
parse_role s =
    if str_eq s "der" then some der else if str_eq s "aggregator" then some aggregator else none

-- The constants of Kind, and any other integer.
pub data Kind : Type 0 where
  unclassified end_device_read der_resource_write log_event_post subscription_post : Kind
  response_post mirror_post end_device_delete end_device_create registration_read : Kind
  end_device_write default_control_write flow_reservation_post : Kind
  flow_reservation_response_post flow_reservation_withdraw : Kind
  unknown : ℕ → Kind

-- kindMethod; a kind that is not a key has the empty method.
unfoldable pub kind_method : Kind → String
kind_method unclassified = ""
kind_method end_device_read = "GET"
kind_method registration_read = "GET"
kind_method der_resource_write = "PUT"
kind_method log_event_post = "POST"
kind_method subscription_post = "POST"
kind_method response_post = "POST"
kind_method mirror_post = "POST"
kind_method end_device_create = "POST"
kind_method flow_reservation_post = "POST"
kind_method flow_reservation_response_post = "POST"
kind_method flow_reservation_withdraw = "PUT"
kind_method end_device_delete = "DELETE"
kind_method end_device_write = "PUT"
kind_method default_control_write = "PUT"
kind_method (unknown n) = ""

unfoldable pub der_self_kinds : Kind → Bool
der_self_kinds end_device_read = true
der_self_kinds registration_read = true
der_self_kinds der_resource_write = true
der_self_kinds log_event_post = true
der_self_kinds subscription_post = true
der_self_kinds response_post = true
der_self_kinds mirror_post = true
der_self_kinds end_device_create = true
der_self_kinds _ = false

unfoldable pub aggregator_self_kinds : Kind → Bool
aggregator_self_kinds end_device_read = true
aggregator_self_kinds registration_read = true
aggregator_self_kinds log_event_post = true
aggregator_self_kinds subscription_post = true
aggregator_self_kinds flow_reservation_post = true
aggregator_self_kinds flow_reservation_response_post = true
aggregator_self_kinds flow_reservation_withdraw = true
aggregator_self_kinds _ = false

unfoldable pub self_allowed : Role → Kind → Bool
self_allowed aggregator kind = aggregator_self_kinds kind
self_allowed der kind = der_self_kinds kind

unfoldable pub manager_kinds : Kind → Bool
manager_kinds end_device_read = true
manager_kinds der_resource_write = true
manager_kinds log_event_post = true
manager_kinds subscription_post = true
manager_kinds response_post = true
manager_kinds mirror_post = true
manager_kinds _ = false

pub record Action : Type 0 where
  pub kind : Kind
  pub target_lfdi : String

-- The case rules of the package strings.
pub record Casing : Type 0 where
  pub to_upper : String → String
  pub equal_fold : String → String → Bool

module _ (c : Casing) where
  -- NewStaticManagedSet: the upper-cased LFDIs, but the empty one.
  unfoldable pub new_static_managed_set : List String → List String
  new_static_managed_set [] = []
  new_static_managed_set (l ∷ ls) =
      let rest = new_static_managed_set ls in if str_eq l "" then rest else c.to_upper l ∷ rest

  -- StaticManagedSet.IsManaged; none is the nil set.
  unfoldable pub is_managed : Option (List String) → String → Bool
  is_managed none lfdi = false
  is_managed (some lfdis) lfdi = not (str_eq lfdi "") && listed (c.to_upper lfdi) lfdis

pub record RefusalError : Type 0 where
  pub role : Option Role
  pub method : String
  pub kind : Kind
  pub target_lfdi : String

-- Guard: `managed` is the method IsManaged of the set installed, none where it is nil.
pub record Guard : Type 0 where
  pub role : Role
  pub self_lfdi : String
  pub managed : Option (String → Bool)
  pub allow_in_band_delete : Bool
  pub allow_in_band_create : Bool

-- New with no option, and the two options that open an action.
unfoldable pub new : Role → String → Option (String → Bool) → Guard
new role self managed = record {
  role = role;
  self_lfdi = self;
  managed = managed;
  allow_in_band_delete = false;
  allow_in_band_create = false;
}

unfoldable pub with_in_band_delete : Guard → Guard
with_in_band_delete g = record g { allow_in_band_delete = true }

unfoldable pub with_in_band_create : Guard → Guard
with_in_band_create g = record g { allow_in_band_create = true }

-- SetManagedSet; a nil guard ignores it.
unfoldable pub set_managed_set : Option Guard → Option (String → Bool) → Option Guard
set_managed_set none m = none
set_managed_set (some g) m = some (record g { managed = m })

abbrev pub is_aggregator : Role → Bool
is_aggregator aggregator = true
is_aggregator der = false

abbrev pub is_create : Kind → Bool
is_create end_device_create = true
is_create _ = false

abbrev pub is_delete : Kind → Bool
is_delete end_device_delete = true
is_delete _ = false

unfoldable pub manages : Option (String → Bool) → String → Bool
manages none lfdi = false
manages (some managed) lfdi = managed lfdi

-- The part of Allow after the target was found to be another device.
unfoldable pub allows_other : Guard → Action → Bool
unfolding manages
allows_other g a =
    if not (is_aggregator g.role)
    then false
    else if is_create a.kind
    then g.allow_in_band_create
    else if not (manages g.managed a.target_lfdi)
    then false
    else if manager_kinds a.kind
    then true
    else is_delete a.kind && g.allow_in_band_delete

refusal : Guard → String → Action → RefusalError
refusal g method a = record {
  role = some g.role;
  method = method;
  kind = a.kind;
  target_lfdi = a.target_lfdi;
}

module _ (c : Casing) where
  unfoldable pub is_self : Guard → Action → Bool
  is_self g a = str_eq a.target_lfdi "" || c.equal_fold a.target_lfdi g.self_lfdi

  -- Allow without its log: none permits the request.
  unfoldable pub allow : Option Guard → String → Action → Option RefusalError
  unfolding allows_other refusal is_self
  allow none method a =
      some (record { role = none; method = method; kind = a.kind; target_lfdi = a.target_lfdi })
  allow (some g) method a =
      if not (str_eq (kind_method a.kind) method)
      then some (refusal g method a)
      else if is_self g a
      then (if self_allowed g.role a.kind then none else some (refusal g method a))
      else if allows_other g a
      then none
      else some (refusal g method a)
