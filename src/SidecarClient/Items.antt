-- ===== src/SidecarClient/Items.antt =====
-- internal/sim/gridlabd/client.go: what Get and Set return.
use ieee_2030_5_client_go.Shared.{
  length, ◌≡◌, refl, Bool, true, Option, some, List, [], ◌∷◌, arith, eq_iff,
}
use ieee_2030_5_client_go.SidecarClient.{
  Link, Conn, Result, ok, err, Attempt, call, get_items, set_items, GetItem, SetItem,
}
use ieee_2030_5_client_go.SidecarClient.Operations.{
  Codec, ObjProp, GetResult, SetResult, in_order, validate_reply_matches_request, read_as, checked,
  get_values, set_values, get_want, get_got, set_want, set_got,
}
use ieee_2030_5_client_go.SidecarClient.Sync.{IsInSync}
use ieee_2030_5_client_go.SidecarClient.Served.{IsAnswer, call-ok}

in_order-eq :
    (want got : List ObjProp) → in_order want got ≡ true → length got ≡ length want → got ≡ want
unfolding in_order
in_order-eq [] [] h e = refl
in_order-eq [] (g ∷ got) h e = absurd (omega arith)
in_order-eq (w ∷ want) [] h e = absurd (omega arith)
in_order-eq (w ∷ want) (g ∷ got) h e =
    ground (arith, in_order-eq want got, eq_iff g.object w.object, eq_iff g.property w.property)

-- A reply passes the check when it names what was asked for, in order.
validate-eq :
    (want got : List ObjProp) → validate_reply_matches_request want got ≡ true → got ≡ want
unfolding validate_reply_matches_request
validate-eq want got h = ground (arith, in_order-eq want got)

checked-ok :
    {A : Type 0} (p : A → Bool) (r : Result A) (a : A)
    → checked p r ≡ ok a
    → (r ≡ ok a) × (p a ≡ true)
unfolding checked
checked-ok p (err e) a h = absurd (cc)
checked-ok p (ok x) a h = ground arith

read_as-ok :
    {A Raw : Type 0} (f : Raw → Option A) (r : Result Raw) (a : A)
    → read_as f r ≡ ok a
    → (raw : Raw) × (r ≡ ok raw) × (f raw ≡ some a)
unfolding read_as
read_as-ok f (err e) a h = absurd (cc)
read_as-ok f (ok raw) a h = (raw, refl, ground arith)

module _ {V Raw Line Model : Type 0} (link : Link V Raw Line Model) (codec : Codec V Raw) where
  -- A Get that succeeds, on a connection that is in step, returns the results in the sidecar's reply
  -- to this request, and they name the objects and properties asked for, one for each, in order.
  pub get_values-ok :
      (a : Attempt) (items : List GetItem) (c : Conn Line Model) (rs : List (GetResult V))
      → IsInSync c
      → (get_values link codec a items c).0 ≡ ok rs
      → (get_got rs ≡ get_want items)
        × ((raw : Raw) × (codec.get_results raw ≡ some rs)
            × IsAnswer link "get" (get_items items) raw c (get_values link codec a items c).1)
  unfolding get_values
  get_values-ok a items c rs sync h =
      let (read, matching) =
        checked-ok
          (λ (xs : List (GetResult V)).
            validate_reply_matches_request (get_want items) (get_got xs))
          (read_as codec.get_results (call link a "get" (get_items items) c).0) rs h in
      let (raw, called, results) =
        read_as-ok codec.get_results (call link a "get" (get_items items) c).0 rs read in
      (
        validate-eq (get_want items) (get_got rs) matching,
        (raw, results, call-ok link a "get" (get_items items) c raw sync called),
      )

  -- The same of Set, whose results are the values that the sidecar read back.
  pub set_values-ok :
      (a : Attempt) (items : List (SetItem V)) (c : Conn Line Model) (rs : List (SetResult V))
      → IsInSync c
      → (set_values link codec a items c).0 ≡ ok rs
      → (set_got rs ≡ set_want items)
        × ((raw : Raw) × (codec.set_results raw ≡ some rs)
            × IsAnswer link "set" (set_items items) raw c (set_values link codec a items c).1)
  unfolding set_values
  set_values-ok a items c rs sync h =
      let (read, matching) =
        checked-ok
          (λ (xs : List (SetResult V)).
            validate_reply_matches_request (set_want items) (set_got xs))
          (read_as codec.set_results (call link a "set" (set_items items) c).0) rs h in
      let (raw, called, results) =
        read_as-ok codec.set_results (call link a "set" (set_items items) c).0 rs read in
      (
        validate-eq (set_want items) (set_got rs) matching,
        (raw, results, call-ok link a "set" (set_items items) c raw sync called),
      )
