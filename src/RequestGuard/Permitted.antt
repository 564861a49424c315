-- ===== src/RequestGuard/Permitted.antt =====
-- The closed list of permitted actions of internal/inverter/guard/guard.go, as relations, against
-- its tables.
use ieee_2030_5_client_go.Shared.{
  ◌≡◌, refl, sym, subst, Bool, true, false, Option, none, some, String,
}
use ieee_2030_5_client_go.RequestGuard.{
  Role, der, aggregator, Kind, end_device_read, der_resource_write, log_event_post,
  subscription_post, response_post, mirror_post, end_device_delete, end_device_create,
  registration_read, flow_reservation_post, flow_reservation_response_post,
  flow_reservation_withdraw, Action, Casing, Guard, is_self, self_allowed, der_self_kinds,
  aggregator_self_kinds, manager_kinds, manages, kind_method, is_create, is_delete, is_aggregator,
}

-- The verb of an action that reads, creates or reports.
pub data Verb : Kind → String → Type 0 where
  read : Verb end_device_read "GET"
  read_registration : Verb registration_read "GET"
  put_resource : Verb der_resource_write "PUT"
  post_log : Verb log_event_post "POST"
  post_subscription : Verb subscription_post "POST"
  post_response : Verb response_post "POST"
  post_mirror : Verb mirror_post "POST"
  create : Verb end_device_create "POST"
  reserve : Verb flow_reservation_post "POST"
  answer_reservation : Verb flow_reservation_response_post "POST"
  withdraw : Verb flow_reservation_withdraw "PUT"
  delete : Verb end_device_delete "DELETE"

-- What both roles do for themselves, and what one of them does.
pub data OwnKind : Role → Kind → Type 0 where
  reads : (r : Role) → OwnKind r end_device_read
  reads_registration : (r : Role) → OwnKind r registration_read
  logs : (r : Role) → OwnKind r log_event_post
  subscribes : (r : Role) → OwnKind r subscription_post
  writes : OwnKind der der_resource_write
  responds : OwnKind der response_post
  mirrors : OwnKind der mirror_post
  registers : OwnKind der end_device_create
  reserves : OwnKind aggregator flow_reservation_post
  answers : OwnKind aggregator flow_reservation_response_post
  withdraws : OwnKind aggregator flow_reservation_withdraw

-- The manager actions M1 to M6.
pub data ManagerKind : Kind → Type 0 where
  m1 : ManagerKind end_device_read
  m2 : ManagerKind der_resource_write
  m3 : ManagerKind log_event_post
  m4 : ManagerKind subscription_post
  m5 : ManagerKind response_post
  m6 : ManagerKind mirror_post

-- The target is managed.
abbrev pub IsManaged : Guard → Action → Type 0
IsManaged g a =
    (managed : String → Bool) × (g.managed ≡ some managed) × (managed a.target_lfdi ≡ true)

module _ (c : Casing) where
  -- The closed list: own actions, M1 to M6 and M7 for a managed device, and M8.
  pub data Permitted (g : Guard) (a : Action) : Type 0 where
    own : is_self c g a ≡ true → OwnKind g.role a.kind → Permitted g a
    manage :
        is_self c g a ≡ false
        → g.role ≡ aggregator
        → IsManaged g a
        → ManagerKind a.kind
        → Permitted g a
    remove :
        is_self c g a ≡ false
        → g.role ≡ aggregator
        → IsManaged g a
        → a.kind ≡ end_device_delete
        → g.allow_in_band_delete ≡ true
        → Permitted g a
    propose :
        is_self c g a ≡ false
        → g.role ≡ aggregator
        → a.kind ≡ end_device_create
        → g.allow_in_band_create ≡ true
        → Permitted g a

pub self_allowed-OwnKind : (r : Role) (k : Kind) → self_allowed r k ≡ true → OwnKind r k
unfolding self_allowed der_self_kinds aggregator_self_kinds
self_allowed-OwnKind der end_device_read h = reads der
self_allowed-OwnKind der registration_read h = reads_registration der
self_allowed-OwnKind der der_resource_write h = writes
self_allowed-OwnKind der log_event_post h = logs der
self_allowed-OwnKind der subscription_post h = subscribes der
self_allowed-OwnKind der response_post h = responds
self_allowed-OwnKind der mirror_post h = mirrors
self_allowed-OwnKind der end_device_create h = registers
self_allowed-OwnKind aggregator end_device_read h = reads aggregator
self_allowed-OwnKind aggregator registration_read h = reads_registration aggregator
self_allowed-OwnKind aggregator log_event_post h = logs aggregator
self_allowed-OwnKind aggregator subscription_post h = subscribes aggregator
self_allowed-OwnKind aggregator flow_reservation_post h = reserves
self_allowed-OwnKind aggregator flow_reservation_response_post h = answers
self_allowed-OwnKind aggregator flow_reservation_withdraw h = withdraws
self_allowed-OwnKind _ _ h = cc

pub OwnKind-self_allowed : {r : Role} {k : Kind} → OwnKind r k → self_allowed r k ≡ true
unfolding self_allowed der_self_kinds aggregator_self_kinds
OwnKind-self_allowed (reads der) = refl
OwnKind-self_allowed (reads aggregator) = refl
OwnKind-self_allowed (reads_registration der) = refl
OwnKind-self_allowed (reads_registration aggregator) = refl
OwnKind-self_allowed (logs der) = refl
OwnKind-self_allowed (logs aggregator) = refl
OwnKind-self_allowed (subscribes der) = refl
OwnKind-self_allowed (subscribes aggregator) = refl
OwnKind-self_allowed writes = refl
OwnKind-self_allowed responds = refl
OwnKind-self_allowed mirrors = refl
OwnKind-self_allowed registers = refl
OwnKind-self_allowed reserves = refl
OwnKind-self_allowed answers = refl
OwnKind-self_allowed withdraws = refl

pub manager_kinds-ManagerKind : (k : Kind) → manager_kinds k ≡ true → ManagerKind k
unfolding manager_kinds
manager_kinds-ManagerKind end_device_read h = m1
manager_kinds-ManagerKind der_resource_write h = m2
manager_kinds-ManagerKind log_event_post h = m3
manager_kinds-ManagerKind subscription_post h = m4
manager_kinds-ManagerKind response_post h = m5
manager_kinds-ManagerKind mirror_post h = m6
manager_kinds-ManagerKind _ h = cc

pub ManagerKind-manager_kinds :
    {k : Kind} → ManagerKind k → (manager_kinds k ≡ true) × (is_create k ≡ false)
unfolding manager_kinds
ManagerKind-manager_kinds m1 = (refl, refl)
ManagerKind-manager_kinds m2 = (refl, refl)
ManagerKind-manager_kinds m3 = (refl, refl)
ManagerKind-manager_kinds m4 = (refl, refl)
ManagerKind-manager_kinds m5 = (refl, refl)
ManagerKind-manager_kinds m6 = (refl, refl)

-- A kind that some role is permitted has its verb.
pub Verb-of_own : {r : Role} {k : Kind} → OwnKind r k → Verb k (kind_method k)
unfolding kind_method
Verb-of_own (reads r) = read
Verb-of_own (reads_registration r) = read_registration
Verb-of_own (logs r) = post_log
Verb-of_own (subscribes r) = post_subscription
Verb-of_own writes = put_resource
Verb-of_own responds = post_response
Verb-of_own mirrors = post_mirror
Verb-of_own registers = create
Verb-of_own reserves = reserve
Verb-of_own answers = answer_reservation
Verb-of_own withdraws = withdraw

pub Verb-of_manager : {k : Kind} → ManagerKind k → Verb k (kind_method k)
unfolding kind_method
Verb-of_manager m1 = read
Verb-of_manager m2 = put_resource
Verb-of_manager m3 = post_log
Verb-of_manager m4 = post_subscription
Verb-of_manager m5 = post_response
Verb-of_manager m6 = post_mirror

pub Verb-of_delete : (k : Kind) → k ≡ end_device_delete → Verb k (kind_method k)
unfolding kind_method
Verb-of_delete k e = subst (λ k. Verb k (kind_method k)) (sym e) delete

pub Verb-of_create : (k : Kind) → k ≡ end_device_create → Verb k (kind_method k)
unfolding kind_method
Verb-of_create k e = subst (λ k. Verb k (kind_method k)) (sym e) create

pub Verb-kind_method : {k : Kind} {m : String} → Verb k m → kind_method k ≡ m
unfolding kind_method
Verb-kind_method read = refl
Verb-kind_method read_registration = refl
Verb-kind_method put_resource = refl
Verb-kind_method post_log = refl
Verb-kind_method post_subscription = refl
Verb-kind_method post_response = refl
Verb-kind_method post_mirror = refl
Verb-kind_method create = refl
Verb-kind_method reserve = refl
Verb-kind_method answer_reservation = refl
Verb-kind_method withdraw = refl
Verb-kind_method delete = refl

pub is_delete_of : (k : Kind) → is_delete k ≡ true → k ≡ end_device_delete
is_delete_of end_device_delete h = refl
is_delete_of _ h = cc

pub is_create_of : (k : Kind) → is_create k ≡ true → k ≡ end_device_create
is_create_of end_device_create h = refl
is_create_of _ h = cc

pub is_aggregator_of : (r : Role) → is_aggregator r ≡ true → r ≡ aggregator
is_aggregator_of aggregator h = refl
is_aggregator_of der h = cc

pub manages_of :
    (m : Option (String → Bool)) (lfdi : String)
    → manages m lfdi ≡ true
    → (managed : String → Bool) × (m ≡ some managed) × (managed lfdi ≡ true)
unfolding manages
manages_of none lfdi h = cc
manages_of (some managed) lfdi h = (managed, refl, h)
