-- ===== src/ControlCache/Diff.antt =====
-- Diff and Refresh of internal/inverter/dercontrol_poll.go against what a list says of each mRID.
use ieee_2030_5_client_go.Shared.{
  ltb, ◌==◌, if◌then◌else◌, ℕ, ◌*◌, ◌≤◌, ◌≡◌, refl, sym, ap, ◌∙◌, ◌≢◌, true, List, [], ◌∷◌, Option,
  none, some, String, str_eq, eq_iff, if◌then◌else◌, listed, is_some, arith, All, str_eq→eq,
}
use ieee_2030_5_client_go.Shared.Map.{lookup, insert, lookup-insert, string_eq}
use ieee_2030_5_client_go.Sep2.{DerControl}
use ieee_2030_5_client_go.ControlCache.{
  ListResult, default_poll_duration, Cache, rejected_mrids, without, accepted_controls, diff_one,
  diff_all, diff, commit, refresh,
}
use ieee_2030_5_client_go.StateMachine.Passes.{last_with}

-- The poll interval is a minute at least; in seconds it is half an hour for a rate of zero, a minute
-- for a rate below that, and otherwise the rate.
default_poll_duration_lem :
    (rate : ℕ)
    → (60 * 1000000000 ≤ default_poll_duration rate)
      × (default_poll_duration rate
          ≡ (if rate == 0 then 1800 else if ltb rate 60 then 60 else rate) * 1000000000)
unfolding default_poll_duration
default_poll_duration_lem rate = (ground arith, ground arith)

or_else : Option DerControl → Option DerControl → Option DerControl
or_else none o = o
or_else (some c) o = some c

or_else-none : (o : Option DerControl) → or_else o none ≡ o
unfolding or_else
or_else-none none = refl
or_else-none (some c) = refl

lookup-commit :
    (m : String) (ncs : List DerControl) (fresh : List (String × DerControl))
    → m ≢ ""
    → lookup m (commit ncs fresh) ≡ or_else (last_with m ncs) (lookup m fresh)
unfolding commit last_with or_else
lookup-commit m [] fresh named = refl
lookup-commit m (nc ∷ ncs) fresh named =
    let fresh' = if str_eq nc.mrid "" then fresh else insert nc.mrid nc fresh in
    ground (
      arith,
      eq_iff nc.mrid "",
      eq_iff nc.mrid m,
      lookup-commit m ncs fresh' named,
      lookup-insert nc.mrid m nc fresh,
    )

-- After Refresh the cache holds, under each named mRID, the last accepted control of the list that
-- has it, and nothing else.
pub lookup-refresh :
    (c : Cache) (next : ListResult) (m : String)
    → m ≢ ""
    → lookup m (refresh c next).0.controls ≡ last_with m (accepted_controls next)
unfolding refresh lookup
lookup-refresh c next m named =
    lookup-commit m (accepted_controls next) [] named
    ∙ or_else-none (last_with m (accepted_controls next))

last_with_head :
    (nc : DerControl) (ncs : List DerControl)
    → nc.mrid ≢ ""
    → is_some (last_with nc.mrid (nc ∷ ncs)) ≡ true
unfolding last_with
last_with_head nc ncs named = ground (arith, eq_iff nc.mrid nc.mrid, eq_iff nc.mrid "")

last_with_mono :
    (nc : DerControl) (ncs : List DerControl) (c : DerControl)
    → is_some (last_with c.mrid ncs) ≡ true
    → is_some (last_with c.mrid (nc ∷ ncs)) ≡ true
unfolding last_with
last_with_mono nc ncs c h = ground (arith, eq_iff nc.mrid c.mrid)

last_with_tail :
    (nc : DerControl) (ncs cs : List DerControl)
    → All (λ c. c.mrid ≢ "" → is_some (last_with c.mrid ncs) ≡ true) cs
    → All (λ c. c.mrid ≢ "" → is_some (last_with c.mrid (nc ∷ ncs)) ≡ true) cs
last_with_tail nc ncs [] h = tt
last_with_tail nc ncs (c ∷ cs) h =
    (λ named. last_with_mono nc ncs c (h.0 named), last_with_tail nc ncs cs h.1)

-- A named control of the list has a last control of its mRID.
last_with_self :
    (ncs : List DerControl) → All (λ nc. nc.mrid ≢ "" → is_some (last_with nc.mrid ncs) ≡ true) ncs
last_with_self [] = tt
last_with_self (nc ∷ ncs) = (last_with_head nc ncs, last_with_tail nc ncs ncs (last_with_self ncs))

diff_all_known :
    (controls : List (String × DerControl)) (ncs : List DerControl)
    → All (λ nc. nc.mrid ≢ "" → is_some (lookup nc.mrid controls) ≡ true) ncs
    → (diff_all controls ncs).added ≡ []
unfolding diff_all diff_one
diff_all_known controls [] h = refl
diff_all_known controls (nc ∷ ncs) h =
    ground (arith, eq_iff nc.mrid "", h.0, diff_all_known controls ncs h.1)

refresh_known :
    (c : Cache) (next : ListResult) (ncs : List DerControl)
    → All (λ nc. nc.mrid ≢ "" → is_some (last_with nc.mrid (accepted_controls next)) ≡ true) ncs
    → All (λ nc. nc.mrid ≢ "" → is_some (lookup nc.mrid (refresh c next).0.controls) ≡ true) ncs
refresh_known c next [] h = tt
refresh_known c next (nc ∷ ncs) h = (
  λ named. ap is_some (lookup-refresh c next nc.mrid named) ∙ h.0 named,
  refresh_known c next ncs h.1,
)

listed_eq : (ms : List String) (a b : String) → str_eq a b ≡ true → listed b ms ≡ listed a ms
listed_eq ms a b e = ap (λ k. listed k ms) (sym (str_eq→eq a b e))

without-listed :
    (ms : List String) (m : String) (cs : List DerControl)
    → listed m ms ≡ true
    → last_with m (without ms cs) ≡ none
unfolding without last_with
without-listed ms m [] h = refl
without-listed ms m (c ∷ cs) h = ground (arith, listed_eq ms c.mrid m, without-listed ms m cs h)

accepted_controls-rejected :
    (next : ListResult) (m : String)
    → listed m (rejected_mrids next.rejected) ≡ true
    → last_with m (accepted_controls next) ≡ none
unfolding accepted_controls rejected_mrids
accepted_controls-rejected next m h =
    ground (arith, without-listed (rejected_mrids next.rejected) m next.der_control h)

-- Right after Refresh, Diff of the same list has no control to add, and no control of a named mRID
-- that the list refuses is in the cache, even if the list carries one.
pub diff-refresh_lem :
    (c : Cache) (next : ListResult) (m : String)
    → m ≢ ""
    → listed m (rejected_mrids next.rejected) ≡ true
    → ((diff (refresh c next).0 next).added ≡ []) × (lookup m (refresh c next).0.controls ≡ none)
unfolding diff
diff-refresh_lem c next m named h = (
  diff_all_known (refresh c next).0.controls (accepted_controls next)
      (refresh_known c next (accepted_controls next) (last_with_self (accepted_controls next))),
  lookup-refresh c next m named ∙ accepted_controls-rejected next m h,
)
