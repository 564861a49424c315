-- ===== src/Dispatch.antt =====
-- Notifications: the dispatchers of internal/inverter/dispatch, simulator.go and production.go, which
-- differ in their log lines only, and the registry of subscriptions of
-- cmd/inverterclient/subscription_registry.go, which their cancel hook is bound to. The fetch of a
-- DERControlList and the functions of the package strings are parameters; a nil client or cache is an
-- option none, mutexes, the context and log lines are left out.
pub mod Routed
use ieee_2030_5_client_go.Shared.{
  Bool, false, not, ◌&&◌, ◌||◌, List, [], ◌∷◌, ◌++◌, ℕ, Option, none, some, String, ◌==◌, str_eq,
  if◌then◌else◌, is_some,
}
use ieee_2030_5_client_go.Shared.Map.{insert, string_eq}
use ieee_2030_5_client_go.ControlCache.{Cache, ListResult, update}

abbrev pub Entries : Type 0
Entries = List (String × String)

unfoldable pub delete : String → Entries → Entries
delete k [] = []
delete k ((j, v) ∷ m) = let rest = delete k m in if str_eq j k then rest else (j, v) ∷ rest

-- subscriptionRegistry.Add.
unfoldable pub add : String → String → Entries → Entries
add subscribed server m = if str_eq subscribed "" then m else insert subscribed server m

-- subscriptionRegistry.Cancel, without the href that it returns, as CancelHookFunc calls it.
unfoldable pub cancel : String → Entries → Entries
cancel subscribed m = if str_eq subscribed "" then m else delete subscribed m

-- Notification.
pub record Notification : Type 0 where
  pub status : ℕ
  pub subscribed_resource : String
  pub new_resource_uri : String
  pub href : String

-- NotificationStatusSubscripted: the server has cancelled the subscription.
abbrev pub status_subscripted : ℕ
status_subscripted = 1

-- TrimRight of slashes, HasPrefix with the text first, and the joining of texts.
pub record Strings : Type 0 where
  pub trim_right_slash : String → String
  pub has_prefix : String → String → Bool
  pub join : String → String → String

-- SimulatorDispatcher, ProductionDispatcher and what their cancel hook acts on.
pub record Dispatcher (W : Type 0) : Type 0 where
  pub client : Option (String → W → Option ListResult × W)
  pub cache : Option Cache
  pub der_control_list_href : String
  pub cancel_hook : Option (String → Entries → Entries)
  pub entries : Entries

-- changedResourceHref.
unfoldable pub changed_resource_href : Notification → String
changed_resource_href n =
    if not (str_eq n.href "")
    then n.href
    else if not (str_eq n.new_resource_uri "")
    then n.new_resource_uri
    else n.subscribed_resource

-- resourceKindFor: whether it is the list, or below it.
unfoldable pub is_list : Strings → String → String → Bool
is_list s changed list =
    if str_eq changed "" || str_eq list ""
    then false
    else str_eq changed list || s.has_prefix changed (s.join (s.trim_right_slash list) "/")

-- registerDERControlList; none is its error.
unfoldable pub register_der_control_list :
    {W : Type 0}
    → Option (String → W → Option ListResult × W)
    → Option Cache
    → String
    → Dispatcher W
    → Option (Dispatcher W)
register_der_control_list client cache href d =
    if is_some client && (is_some cache && not (str_eq href ""))
    then some (record d { client = client; cache = cache; der_control_list_href = href })
    else none

-- RegisterCancelHook.
unfoldable pub register_cancel_hook :
    {W : Type 0} → Option (String → Entries → Entries) → Dispatcher W → Dispatcher W
register_cancel_hook hook d = record d { cancel_hook = hook }

-- refreshDERControlList, from the answer to its fetch.
unfoldable pub store : {W : Type 0} → Option ListResult → Cache → Dispatcher W → Dispatcher W
store none cache d = d
store (some list) cache d = record d { cache = some (update cache list) }

unfoldable pub run_hook :
    {W : Type 0} → Option (String → Entries → Entries) → String → Dispatcher W → Dispatcher W
run_hook none subscribed d = d
run_hook (some hook) subscribed d = record d { entries = hook subscribed d.entries }

module _ {W : Type 0} (s : Strings) where
  -- The routing of Dispatch to refreshDERControlList.
  unfoldable pub route :
      Option (String → W → Option ListResult × W)
      → Option Cache
      → String
      → Dispatcher W
      → W
      → Dispatcher W × W
  route (some client) (some cache) changed d w =
      let (answer, w1) = client d.der_control_list_href w in
      if is_list s changed d.der_control_list_href then (store answer cache d, w1) else (d, w)
  route _ _ changed d w = (d, w)

  -- Dispatch.
  unfoldable pub dispatch : Notification → Dispatcher W → W → Dispatcher W × W
  dispatch n d w =
      let routed = route d.client d.cache (changed_resource_href n) d w in
      if n.status == status_subscripted
      then (run_hook d.cancel_hook n.subscribed_resource d, w)
      else routed

  -- Notifications one after the other.
  unfoldable pub dispatch_each : List Notification → Dispatcher W → W → Dispatcher W × W
  dispatch_each [] d w = (d, w)
  dispatch_each (n ∷ ns) d w = let (d1, w1) = dispatch n d w in dispatch_each ns d1 w1
