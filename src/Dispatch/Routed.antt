-- ===== src/Dispatch/Routed.antt =====
-- What notifications make the dispatchers of internal/inverter/dispatch fetch and the registry of
-- cmd/inverterclient/subscription_registry.go forget.
use ieee_2030_5_client_go.Shared.{
  ◌≡◌, refl, sym, ◌∙◌, ap, subst, Bool, true, false, not, ◌&&◌, ◌||◌, List, [], ◌∷◌, Option, none,
  some, String, ◌==◌, str_eq, eq_iff, if◌then◌else◌, arith, Bool-cases, inl, inr,
}
use ieee_2030_5_client_go.Shared.Map.{lookup, string_eq}
use ieee_2030_5_client_go.ControlCache.{Cache, ListResult, update}
use ieee_2030_5_client_go.Dispatch.{
  Entries, delete, cancel, Notification, status_subscripted, Strings, Dispatcher,
  changed_resource_href, is_list, store, run_hook, route, dispatch, dispatch_each,
}

lookup-delete :
    (j k : String) (m : Entries) → lookup j (delete k m) ≡ (if str_eq k j then none else lookup j m)
unfolding lookup delete
lookup-delete j k [] = ground arith
lookup-delete j k ((i, v) ∷ m) =
    ground (arith, eq_iff k j, eq_iff i k, eq_iff i j, lookup-delete j k m)

-- Whether a notification cancels the subscription to `j`.
abbrev pub cancels : String → Notification → Bool
cancels j n =
    n.status == status_subscripted && (not (str_eq j "") && str_eq n.subscribed_resource j)

abbrev pub any_cancels : String → List Notification → Bool
any_cancels j [] = false
any_cancels j (n ∷ ns) = cancels j n || any_cancels j ns

lookup-cancel :
    (j k : String) (m : Entries)
    → lookup j (cancel k m) ≡ (if not (str_eq j "") && str_eq k j then none else lookup j m)
unfolding cancel
lookup-cancel j k m = elim (Bool-cases (str_eq k "")) [
  | inl e ↦
      let other : (not (str_eq j "") && str_eq k j) ≡ false =
        ground (arith, e, eq_iff k "", eq_iff k j, eq_iff j "") in
      rw (e, other) refl
  | inr e ↦
      let same : (not (str_eq j "") && str_eq k j) ≡ str_eq k j =
        ground (arith, e, eq_iff k "", eq_iff k j, eq_iff j "") in
      rw (e, same) (lookup-delete j k m)
]

forget_each :
    (b c : Bool) (o p : Option String)
    → o ≡ (if b then none else p)
    → (if c then none else o) ≡ (if b || c then none else p)
forget_each true true o p h = refl
forget_each true false o p h = h
forget_each false true o p h = refl
forget_each false false o p h = h

-- The first of some hrefs that is there.
abbrev first_named : List String → String
first_named [] = ""
first_named (x ∷ xs) = if str_eq x "" then first_named xs else x

abbrev named_in : Notification → String
named_in n = first_named (n.href ∷ (n.new_resource_uri ∷ (n.subscribed_resource ∷ [])))

-- Whether a notification tells of the list, or of a resource below it, and does not cancel.
abbrev pub tells : Strings → String → Notification → Bool
tells s list n =
    let named = named_in n in
    not (n.status == status_subscripted)
    && (not (str_eq list "")
        && (not (str_eq named "")
            && (str_eq named list || s.has_prefix named (s.join (s.trim_right_slash list) "/"))))

changed-first_named : (n : Notification) → changed_resource_href n ≡ named_in n
unfolding changed_resource_href
changed-first_named n = ground (arith, eq_iff n.subscribed_resource "")

about : (b c d : Bool) → (true && (not c && (not b && d))) ≡ (if b || c then false else d)
about true true d = refl
about true false d = refl
about false true d = refl
about false false d = refl

tells-is_list :
    (s : Strings) (list : String) (n : Notification)
    → (n.status == status_subscripted) ≡ false
    → tells s list n ≡ is_list s (changed_resource_href n) list
unfolding is_list
tells-is_list s list n h =
    rw (changed-first_named n, h)
      (about (str_eq (named_in n) "") (str_eq list "") (
        str_eq (named_in n) list
        || s.has_prefix (named_in n) (s.join (s.trim_right_slash list) "/")))

-- What an answer leaves of the cache.
abbrev pub taken : Option ListResult → Cache → Cache
taken none c = c
taken (some list) c = update c list

module _ {W : Type 0} (client : String → W → Option ListResult × W) (href : String) where
  -- A read of the list at `href`, or none, and what it leaves of the cache.
  abbrev pub read_if : Bool → Cache × W → Cache × W
  read_if true (c, w) = let (answer, w1) = client href w in (taken answer c, w1)
  read_if false r = r

  -- A read for each notification that tells of the list.
  abbrev pub reads_of : Strings → List Notification → Cache × W → Cache × W
  reads_of s [] r = r
  reads_of s (n ∷ ns) r = reads_of s ns (read_if (tells s href n) r)

  -- What the dispatcher is bound to: the client, the href of the list, a cache, and the registry.
  pub record Wired (d : Dispatcher W) (c : Cache) : Type 0 where
    pub its_client : d.client ≡ some client
    pub its_href : d.der_control_list_href ≡ href
    pub its_cache : d.cache ≡ some c
    pub its_hook : d.cancel_hook ≡ some cancel

  store-Wired :
      (o : Option ListResult) (c : Cache) (d : Dispatcher W)
      → Wired d c
      → Wired (store o c d) (taken o c) × ((store o c d).entries ≡ d.entries)
  unfolding store
  store-Wired none c d h = (h, refl)
  store-Wired (some l) c d h = (
    record {
      its_client = h.its_client;
      its_href = h.its_href;
      its_cache = refl;
      its_hook = h.its_hook;
    },
    refl,
  )

  -- What is left, with the entries that are given for the resource `j`.
  abbrev Leaves : String → Option String → Cache × W → Dispatcher W × W → Type 0
  Leaves j entry (c, w) (d, w') = Wired d c × (w' ≡ w) × (lookup j d.entries ≡ entry)

  route_lem :
      (s : Strings) (changed : String) (c : Cache) (d : Dispatcher W) (w : W) (j : String)
      → Wired d c
      → Leaves j
          (lookup j d.entries)
          (read_if (is_list s changed href) (c, w))
          (route s (some client) (some c) changed d w)
  unfolding route
  route_lem s changed c d w j h =
      let (wired, same) = store-Wired (client href w).0 c d h in
      subst
        (λ x.
          Leaves j (lookup j d.entries) (read_if (is_list s changed href) (c, w))
            (if is_list s changed x then (store (client x w).0 c d, (client x w).1) else (d, w)))
        (sym h.its_href)
        (elim (Bool-cases (is_list s changed href)) [
          | inl e ↦ rw e (wired, refl, ap (lookup j) same)
          | inr e ↦ rw e (h, refl, refl)
        ])

  hook-Wired :
      (o : Option (String → Entries → Entries)) (k j : String) (c : Cache) (d : Dispatcher W)
      → o ≡ some cancel
      → Wired d c
      → Wired (run_hook o k d) c
        × (lookup j (run_hook o k d).entries ≡ lookup j (cancel k d.entries))
  unfolding run_hook
  hook-Wired none k j c d e h = absurd (cc)
  hook-Wired (some f) k j c d e h =
      let same : f ≡ cancel = cc in
      (
        record {
          its_client = h.its_client;
          its_href = h.its_href;
          its_cache = h.its_cache;
          its_hook = h.its_hook;
        },
        ap (λ g. lookup j (g k d.entries)) same,
      )

  dispatch_lem :
      (s : Strings) (n : Notification) (c : Cache) (d : Dispatcher W) (w : W) (j : String)
      → Wired d c
      → Leaves j
          (if cancels j n then none else lookup j d.entries)
          (read_if (tells s href n) (c, w))
          (dispatch s n d w)
  unfolding dispatch
  dispatch_lem s n c d w j h = elim (Bool-cases (n.status == status_subscripted)) [
    | inl e ↦
        let (wired, gone) = hook-Wired d.cancel_hook n.subscribed_resource j c d h.its_hook h in
        rw e (wired, refl, gone ∙ lookup-cancel j n.subscribed_resource d.entries)
    | inr e ↦
        let changed = changed_resource_href n in
        let goal = Leaves j (lookup j d.entries) (read_if (is_list s changed href) (c, w)) in
        rw (tells-is_list s href n e, e)
          (subst (λ o. goal (route s o d.cache changed d w)) (sym h.its_client)
            (subst (λ o. goal (route s (some client) o changed d w)) (sym h.its_cache)
              (route_lem s changed c d w j h)))
  ]

  -- Whatever notifications come to a dispatcher with a client, a cache and the cancel hook bound to the
  -- registry: it reads the registered list, whichever hrefs they name, once for each that tells of the
  -- list or of a resource below it and does not cancel, and calls the client for nothing else; the cache
  -- is the one that the answers leave, one after the other; and the registry holds for a resource what
  -- it held before, or nothing if one of them has cancelled the subscription to it.
  pub dispatch_each_lem :
      (s : Strings) (ns : List Notification) (c : Cache) (d : Dispatcher W) (w : W) (j : String)
      → Wired d c
      → let (d', w') = dispatch_each s ns d w in
        (d'.cache ≡ some (reads_of s ns (c, w)).0)
        × (w' ≡ (reads_of s ns (c, w)).1)
        × (lookup j d'.entries ≡ (if any_cancels j ns then none else lookup j d.entries))
  unfolding dispatch_each
  dispatch_each_lem s [] c d w j h = (h.its_cache, refl, refl)
  dispatch_each_lem s (n ∷ ns) c d w j h =
      let d1 = (dispatch s n d w).0 in
      let w1 = (dispatch s n d w).1 in
      let r = read_if (tells s href n) (c, w) in
      let (wired, world, now) = dispatch_lem s n c d w j h in
      let (cached, gone, last) = dispatch_each_lem s ns r.0 d1 w1 j wired in
      (
        cached ∙ ap (λ v. some (reads_of s ns (r.0, v)).0) world,
        gone ∙ ap (λ v. (reads_of s ns (r.0, v)).1) world,
        last ∙ forget_each (cancels j n) (any_cancels j ns) _ _ now,
      )
