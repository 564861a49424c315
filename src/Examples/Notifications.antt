-- ===== src/Examples/Notifications.antt =====
-- The theorem about notifications at one that cancels a subscription and one of a changed control.
use ieee_2030_5_client_go.Shared.{
  ◌≡◌, refl, List, [], ◌∷◌, none, some, Option, String, str_eq, if◌then◌else◌,
}
use ieee_2030_5_client_go.Shared.Map.{lookup, string_eq}
use ieee_2030_5_client_go.ControlCache.{ListResult, new_cache}
use ieee_2030_5_client_go.Dispatch.{
  cancel, Notification, Strings, Dispatcher, dispatch_each, dispatch, route, run_hook, is_list,
  changed_resource_href, store, delete,
}
use ieee_2030_5_client_go.Dispatch.Routed.{any_cancels, reads_of, dispatch_each_lem}

-- The package strings on the texts of these tests, in which the list is at /derc.
abbrev strings : Strings
strings = record {
  trim_right_slash = λ t. t;
  has_prefix = λ t prefix. str_eq t "/derc/1";
  join = λ t u. t;
}

-- The world is the hrefs that are read, the last first.
abbrev client : String → List String → Option ListResult × List String
client href w = (some (record { der_control = []; rejected = [] }), href ∷ w)

abbrev dispatcher : Dispatcher (List String)
dispatcher = record {
  client = some client;
  cache = some new_cache;
  der_control_list_href = "/derc";
  cancel_hook = some cancel;
  entries = ("/fsa", "/sub/1") ∷ (("/derc", "/sub/2") ∷ []);
}

abbrev notifications : List Notification
notifications =
    record { status = 1; subscribed_resource = "/fsa"; new_resource_uri = ""; href = "" }
    ∷ (record { status = 0; subscribed_resource = "/derc"; new_resource_uri = ""; href = "/derc/1" }
        ∷ (record {
          status = 0;
          subscribed_resource = "/derc";
          new_resource_uri = "/else";
          href = "";
        }
            ∷ []))

dispatch_each_lem_example :
    let (d', w') = dispatch_each strings notifications dispatcher [] in
    (d'.cache ≡ some (reads_of client "/derc" strings notifications (new_cache, [])).0)
    × (w' ≡ (reads_of client "/derc" strings notifications (new_cache, [])).1)
    × (lookup "/fsa" d'.entries
        ≡ (if any_cancels "/fsa" notifications then none else lookup "/fsa" dispatcher.entries))
dispatch_each_lem_example =
    dispatch_each_lem client "/derc" strings notifications new_cache dispatcher [] "/fsa"
      (record { its_client = refl; its_href = refl; its_cache = refl; its_hook = refl })

-- Of the three, the second alone makes the dispatcher read.
fetched_test : (dispatch_each strings notifications dispatcher []).1 ≡ "/derc" ∷ []
unfolding dispatch_each dispatch route run_hook is_list changed_resource_href store
fetched_test = refl

-- The subscription that was cancelled is forgotten, the other is not.
kept_test :
    (lookup "/fsa" (dispatch_each strings notifications dispatcher []).0.entries ≡ none)
    × (lookup "/derc" (dispatch_each strings notifications dispatcher []).0.entries ≡ some "/sub/2")
unfolding dispatch_each dispatch route run_hook is_list changed_resource_href store cancel delete
    lookup
kept_test = (refl, refl)
