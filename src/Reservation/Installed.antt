-- ===== src/Reservation/Installed.antt =====
-- What a stored request and a read list of cmd/inverterclient/reservation.go do to the grant.
use ieee_2030_5_client_go.Shared.{
  ℕ, ◌≡◌, refl, sym, ◌∙◌, subst, Bool, true, false, ◌||◌, List, Option, none, some, str_eq,
  if◌then◌else◌, arith, ℤ, Bool-cases, Option-cases, inl, inr,
}
use ieee_2030_5_client_go.Shared.Float.{Float}
use ieee_2030_5_client_go.Reservation.{FlowResponse}
use ieee_2030_5_client_go.Reservation.Answer.{dispatches, GrantTerms, judge}
use ieee_2030_5_client_go.Reservation.Granted.{IsGrant, judge-IsGrant}
use ieee_2030_5_client_go.Reservation.Reserver.{
  Config, Current, Reserver, write, grace, Attempt, accepted, retryable, permanent, is_kept,
  retry_later, later_if,
}
use ieee_2030_5_client_go.Reservation.Reading.{judged, granted_by, update}
use ieee_2030_5_client_go.Reservation.Withdrawn.{Serves, Grants, IsSound, write_same}

later-IsSound :
    (cf : Config) (i : ℕ) (now : ℤ) (r : Reserver) → IsSound r → IsSound (retry_later cf i now r)
unfolding retry_later
later-IsSound cf i now r h =
    let c = r.heap i in
    elim (Bool-cases (c.done || (c.withdrawn || (str_eq c.href "" || is_kept i r.stale)))) [
      | inl e ↦ rw e h
      | inr e ↦ rw e h
    ]

pub later_if-IsSound :
    (cf : Config) (a : Attempt) (i : ℕ) (now : ℤ) (r : Reserver)
    → IsSound r
    → IsSound (later_if cf a i now r)
later_if-IsSound cf accepted i now r h = h
later_if-IsSound cf retryable i now r h = later-IsSound cf i now r h
later_if-IsSound cf permanent i now r h = h

-- What a grant rests on is the same.
abbrev pub Alike : Current → Current → Type 0
Alike c d = (c.facts ≡ d.facts) × (c.withdrawn ≡ d.withdrawn) × (c.done ≡ d.done)

Alike-Serves : (c d : Current) (t : GrantTerms) → Alike c d → Serves d t → Serves c t
Alike-Serves c d t (f, w, e) (not_withdrawn, not_done, g) =
    (w ∙ not_withdrawn, e ∙ not_done, subst (λ q. IsGrant q t) (sym f) g)

pub if_Alike : (b : Bool) (c d : Current) → Alike c d → Alike (if b then c else d) d
if_Alike true c d h = h
if_Alike false c d h = (refl, refl, refl)

pub store-Grants :
    (i : ℕ) (c : Current) (heap : ℕ → Current) (cur : Option ℕ) (g : Option GrantTerms)
    → cur ≡ some i
    → Alike c (heap i)
    → Grants heap cur g
    → Grants (write i c heap) cur g
store-Grants i c heap cur none e same h = tt
store-Grants i c heap cur (some t) e same (j, f, serves) =
    let there : j ≡ i = ground (arith, e, f) in
    let here : Serves (heap i) t = subst (λ k. Serves (heap k) t) there serves in
    (
      i,
      e,
      subst (λ d. Serves d t) (sym (write_same i c heap)) (Alike-Serves c (heap i) t same here),
    )

granted_by-Serves :
    (scaled : ℤ → ℤ → Float) (cf : Config) (now : ℤ) (list : List FlowResponse) (c : Current)
    (t : GrantTerms)
    → c.done ≡ false
    → granted_by (judged scaled cf now list c) ≡ some t
    → Serves (judged scaled cf now list c) t
unfolding judged granted_by
granted_by-Serves scaled cf now list c t d h =
    let (kind, terms) = judge scaled list c.mrid c.facts (grace cf) now in
    elim (Bool-cases (dispatches kind)) [
      | inr e ↦ absurd (ground (arith, e, h))
      | inl e ↦ elim (Bool-cases c.withdrawn) [
        | inl f ↦ absurd (ground (arith, e, f, h))
        | inr f ↦
            let same : terms ≡ t = ground (arith, e, f, h) in
            let (resp, chosen, is_grant, named) =
              judge-IsGrant scaled list c.mrid c.facts (grace cf) now kind terms refl e in
            (f, d, subst (IsGrant c.facts) same is_grant)
      ]
    ]

pub update-IsSound :
    (scaled : ℤ → ℤ → Float) (cf : Config) (i : ℕ) (now : ℤ) (list : List FlowResponse)
    (r : Reserver)
    → r.cur ≡ some i
    → (r.heap i).done ≡ false
    → IsSound (update scaled cf i now list r)
unfolding update
update-IsSound scaled cf i now list r e d =
    let c = judged scaled cf now list (r.heap i) in
    elim (Option-cases (granted_by c)) [
      | inl n ↦ rw n tt
      | inr (t, g) ↦ rw g (
        i,
        e,
        subst (λ d. Serves d t) (sym (write_same i c r.heap))
            (granted_by-Serves scaled cf now list (r.heap i) t d g),
      )
    ]
