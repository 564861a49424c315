-- ===== src/Reservation/Withdrawn.antt =====
-- The grant of the reserver of cmd/inverterclient/reservation.go over its operations: a withdrawn or
-- finished request has none, and it keeps to the request.
use ieee_2030_5_client_go.Shared.{
  ℕ, ◌≡◌, refl, sym, subst, Bool, true, false, not, ◌||◌, List, [], ◌∷◌, Option, none, some, str_eq,
  ◌==◌, if◌then◌else◌, arith, ℤ, ◌+ℤ◌, ltb_ℤ, Bool-cases, inl, inr,
}
use ieee_2030_5_client_go.Reservation.Answer.{GrantTerms}
use ieee_2030_5_client_go.Reservation.Granted.{IsGrant}
use ieee_2030_5_client_go.Reservation.Reserver.{
  Client, Config, Current, Stale, Reserver, PutError, not_found, off_server, transient, write,
  grace, accepted, retryable, permanent, permanent_refusal, after_put, is_cur, drop_grant,
}
use ieee_2030_5_client_go.Reservation.Withdrawing.{withdraw, retry_due, retry_one, retry_each}

abbrev pub Serves : Current → GrantTerms → Type 0
Serves c t = (c.withdrawn ≡ false) × (c.done ≡ false) × IsGrant c.facts t

-- The terms are of the request being followed, which is neither withdrawn nor finished, and keep to it.
abbrev pub Grants : (ℕ → Current) → Option ℕ → Option GrantTerms → Type 0
Grants heap cur none = Unit
Grants heap cur (some t) = (i : ℕ) × (cur ≡ some i) × Serves (heap i) t

abbrev pub IsSound : Reserver → Type 0
IsSound r = Grants r.heap r.cur r.grant

write_other :
    (i j : ℕ) (c : Current) (heap : ℕ → Current) → (i == j) ≡ false → write i c heap j ≡ heap j
unfolding write
write_other i j c heap n = rw n refl

pub write_same : (i : ℕ) (c : Current) (heap : ℕ → Current) → write i c heap i ≡ c
unfolding write
write_same i c heap = let self : (i == i) ≡ true = ground arith in rw self refl

drop_refused :
    (e : PutError) (b : Bool) (g : Option GrantTerms)
    → drop_grant (if permanent_refusal e then permanent else retryable) b g ≡ g
unfolding drop_grant permanent_refusal
drop_refused not_found b g = refl
drop_refused off_server b g = refl
drop_refused transient b g = refl

write-Grants :
    (i : ℕ) (c : Current) (heap : ℕ → Current) (cur : Option ℕ) (g : Option GrantTerms)
    → is_cur i cur ≡ false
    → Grants heap cur g
    → Grants (write i c heap) cur g
write-Grants i c heap cur none n h = tt
write-Grants i c heap none (some t) n (j, e, rest) = absurd (ground (arith, e))
write-Grants i c heap (some k) (some t) n (j, e, rest) =
    let same : k ≡ j = ground (arith, e) in
    let other : write i c heap j ≡ heap j =
      write_other i j c heap (subst (λ x. (i == x) ≡ false) same n) in
    (j, e, subst (λ d. Serves d t) (sym other) rest)

drop_followed :
    (i : ℕ) (c : Current) (heap : ℕ → Current) (cur : Option ℕ) (g : Option GrantTerms)
    → Grants heap cur g
    → Grants (write i c heap) cur (drop_grant accepted (is_cur i cur) g)
unfolding drop_grant
drop_followed i c heap cur g h = elim (Bool-cases (is_cur i cur)) [
  | inl e ↦ rw e tt
  | inr e ↦ rw e (write-Grants i c heap cur g e h)
]

after_put-Grants :
    (answer : Option PutError) (i : ℕ) (heap : ℕ → Current) (cur : Option ℕ) (g : Option GrantTerms)
    → Grants heap cur g
    → Grants
        (after_put answer i heap).1
        cur
        (drop_grant (after_put answer i heap).0 (is_cur i cur) g)
unfolding after_put
after_put-Grants (some e) i heap cur g h =
    subst (Grants heap cur) (sym (drop_refused e (is_cur i cur) g)) h
after_put-Grants none i heap cur g h = drop_followed i _ heap cur g h

module _ {W : Type 0} (client : Client W) where
  pub withdraw-Grants :
      (i : ℕ) (now : ℤ) (heap : ℕ → Current) (w : W) (cur : Option ℕ) (g : Option GrantTerms)
      → Grants heap cur g
      → Grants
          (withdraw client i now heap w).1
          cur
          (drop_grant (withdraw client i now heap w).0 (is_cur i cur) g)
  unfolding withdraw drop_grant
  withdraw-Grants i now heap w cur g h =
      let c = heap i in
      elim (Bool-cases (c.done || (c.withdrawn || str_eq c.href ""))) [
        | inl e ↦ rw e h
        | inr e ↦ rw e (after_put-Grants _ i heap cur g h)
      ]

  module _ (cf : Config) where
    retry_one-IsSound :
        (now : ℤ) (s : Stale) (r : Reserver) (w : W)
        → IsSound r
        → IsSound (retry_one client cf now s r w).1
    unfolding retry_one retry_due
    retry_one-IsSound now s r w h =
        let c = r.heap s.id in
        elim (Bool-cases (c.withdrawn || not (ltb_ℤ now (c.facts.until +ℤ grace cf)))) [
          | inl e ↦ rw e h
          | inr e ↦ elim (Bool-cases (ltb_ℤ now s.next)) [
            | inl f ↦ rw (e, f) h
            | inr f ↦ rw (e, f) (withdraw-Grants s.id now r.heap w r.cur r.grant h)
          ]
        ]

    pub retry_each-IsSound :
        (now : ℤ) (ss : List Stale) (r : Reserver) (w : W)
        → IsSound r
        → IsSound (retry_each client cf now ss r w).1
    unfolding retry_each
    retry_each-IsSound now [] r w h = h
    retry_each-IsSound now (s ∷ ss) r w h =
        retry_each-IsSound now ss _ _ (retry_one-IsSound now s r w h)
