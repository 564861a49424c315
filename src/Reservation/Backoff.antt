-- ===== src/Reservation/Backoff.antt =====
-- The withdrawals to be retried of cmd/inverterclient/reservation.go: no request twice, and each wait
-- between bounds.
use ieee_2030_5_client_go.Shared.{
  ℕ, ◌≡◌, refl, false, not, ◌||◌, List, [], ◌∷◌, ◌++◌, str_eq, ◌==◌, arith, ℤ, pos, ◌+ℤ◌, ◌≤ℤ◌,
  ltb_ℤ, sec, int_laws, Bool-cases, inl, inr,
}
use ieee_2030_5_client_go.Reservation.Reserver.{
  Client, Config, Stale, Reserver, max_ℤ, min_ℤ, max_withdraw_backoff, poll_interval, grace,
  Attempt, accepted, retryable, permanent, is_kept, retry_later, later_if, keep_stale, prepend,
}
use ieee_2030_5_client_go.Reservation.Withdrawing.{retry_due, retry_one, retry_each}

-- The wait is at least the poll interval or the cap, whichever is less, and at most whichever is more.
abbrev pub Bounded : Config → Stale → Type 0
Bounded cf s =
    (min_ℤ (poll_interval cf) max_withdraw_backoff ≤ℤ s.wait)
    × (s.wait ≤ℤ max_ℤ (poll_interval cf) max_withdraw_backoff)

-- No request twice, and every wait within its bounds.
abbrev pub IsTidy : Config → List Stale → Type 0
IsTidy cf [] = Unit
IsTidy cf (s ∷ ss) = (is_kept s.id ss ≡ false) × (Bounded cf s × IsTidy cf ss)

min_lower : (a b : ℤ) → (min_ℤ a b ≤ℤ a) × (min_ℤ a b ≤ℤ b)
unfolding min_ℤ
min_lower a b = (ground arith, ground arith)

max_upper : (a b : ℤ) → (a ≤ℤ max_ℤ a b) × (b ≤ℤ max_ℤ a b)
unfolding max_ℤ
max_upper a b = (ground arith, ground arith)

le_min : (x a b : ℤ) → x ≤ℤ a → x ≤ℤ b → x ≤ℤ min_ℤ a b
unfolding min_ℤ
le_min x a b h k = elim (Bool-cases (ltb_ℤ b a)) [ inl e ↦ rw e k | inr e ↦ rw e h ]

doubled_bounds :
    (p c w : ℤ)
    → pos 0 ≤ℤ p
    → pos 0 ≤ℤ c
    → min_ℤ p c ≤ℤ w
    → (min_ℤ p c ≤ℤ min_ℤ (w +ℤ w) c) × (min_ℤ (w +ℤ w) c ≤ℤ max_ℤ p c)
doubled_bounds p c w h k l =
    let (_, under_cap) = min_lower p c in
    let (_, under) = min_lower (w +ℤ w) c in
    let (_, over) = max_upper p c in
    let least = le_min (pos 0) p c h k in
    (
      le_min (min_ℤ p c) (w +ℤ w) c (omega (int_laws, l, least)) under_cap,
      omega (int_laws, under, over),
    )

poll_interval_nonneg : (cf : Config) → pos 0 ≤ℤ poll_interval cf
unfolding poll_interval max_ℤ sec
poll_interval_nonneg cf = ground arith

keep_stale_bounds :
    (cf : Config) (a : Attempt) (now : ℤ) (s : Stale) (ss : List Stale)
    → is_kept s.id ss ≡ false
    → Bounded cf s
    → IsTidy cf ss
    → IsTidy cf (prepend (keep_stale a now s) ss)
unfolding keep_stale sec
keep_stale_bounds cf accepted now s ss n b h = h
keep_stale_bounds cf permanent now s ss n b h = h
keep_stale_bounds cf retryable now s ss n (low, high) h = (
  n,
  (
    doubled_bounds (poll_interval cf) max_withdraw_backoff s.wait (poll_interval_nonneg cf)
        (omega arith) low,
    h,
  ),
)

append_kept :
    (i : ℕ) (s : Stale) (ss : List Stale)
    → (s.id == i) ≡ false
    → is_kept i ss ≡ false
    → is_kept i (ss ++ (s ∷ [])) ≡ false
unfolding is_kept
append_kept i s [] n h = rw n refl
append_kept i s (u ∷ ss) n h = ground (arith, append_kept i s ss n)

append-IsTidy :
    (cf : Config) (s : Stale) (ss : List Stale)
    → is_kept s.id ss ≡ false
    → Bounded cf s
    → IsTidy cf ss
    → IsTidy cf (ss ++ (s ∷ []))
unfolding is_kept
append-IsTidy cf s [] n b h = (refl, (b, tt))
append-IsTidy cf s (u ∷ ss) n b (m, (c, h)) =
    let other : (s.id == u.id) ≡ false = ground (arith, n) in
    let rest : is_kept s.id ss ≡ false = ground (arith, n) in
    (append_kept u.id s ss other m, (c, append-IsTidy cf s ss rest b h))

pub later-IsTidy :
    (cf : Config) (a : Attempt) (i : ℕ) (now : ℤ) (r : Reserver)
    → IsTidy cf r.stale
    → IsTidy cf (later_if cf a i now r).stale
unfolding retry_later
later-IsTidy cf accepted i now r h = h
later-IsTidy cf permanent i now r h = h
later-IsTidy cf retryable i now r h =
    let c = r.heap i in
    let wait = poll_interval cf in
    elim (Bool-cases (c.done || (c.withdrawn || (str_eq c.href "" || is_kept i r.stale)))) [
      | inl e ↦ rw e h
      | inr e ↦ rw e (
          append-IsTidy cf (record { id = i; next = now +ℤ wait; wait = wait }) r.stale
            (ground (arith, e))
            ((min_lower wait max_withdraw_backoff).0, (max_upper wait max_withdraw_backoff).0) h)
    ]

module _ {W : Type 0} (client : Client W) (cf : Config) where
  retry_one-stale :
      (now : ℤ) (s : Stale) (r : Reserver) (w : W) (rest : List Stale)
      → is_kept s.id rest ≡ false
      → Bounded cf s
      → IsTidy cf rest
      → IsTidy cf (prepend (retry_one client cf now s r w).0 rest)
  unfolding retry_one retry_due
  retry_one-stale now s r w rest n b h =
      let c = r.heap s.id in
      elim (Bool-cases (c.withdrawn || not (ltb_ℤ now (c.facts.until +ℤ grace cf)))) [
        | inl e ↦ rw e h
        | inr e ↦ elim (Bool-cases (ltb_ℤ now s.next)) [
          | inl f ↦ rw (e, f) (n, (b, h))
          | inr f ↦ rw (e, f) (keep_stale_bounds cf _ now s rest n b h)
        ]
      ]

  retry_one-id :
      (i : ℕ) (now : ℤ) (s : Stale) (r : Reserver) (w : W) (rest : List Stale)
      → (s.id == i) ≡ false
      → is_kept i rest ≡ false
      → is_kept i (prepend (retry_one client cf now s r w).0 rest) ≡ false
  unfolding retry_one retry_due is_kept keep_stale
  retry_one-id i now s r w rest n h =
      let c = r.heap s.id in
      elim (Bool-cases (c.withdrawn || not (ltb_ℤ now (c.facts.until +ℤ grace cf)))) [
        | inl e ↦ rw e h
        | inr e ↦ elim (Bool-cases (ltb_ℤ now s.next)) [
          | inl f ↦ rw (e, f, n) h
          | inr f ↦ rw (e, f) (kept_id _)
        ]
      ]
    where
      kept_id : (a : Attempt) → is_kept i (prepend (keep_stale a now s) rest) ≡ false
      kept_id accepted = h
      kept_id permanent = h
      kept_id retryable = rw n h

  retry_each-id :
      (i : ℕ) (now : ℤ) (ss : List Stale) (r : Reserver) (w : W)
      → is_kept i ss ≡ false
      → is_kept i (retry_each client cf now ss r w).0 ≡ false
  unfolding retry_each is_kept
  retry_each-id i now [] r w h = refl
  retry_each-id i now (s ∷ ss) r w h =
      retry_one-id i now s r w _ (ground (arith, h))
        (retry_each-id i now ss _ _ (ground (arith, h)))

  pub retry_each-IsTidy :
      (now : ℤ) (ss : List Stale) (r : Reserver) (w : W)
      → IsTidy cf ss
      → IsTidy cf (retry_each client cf now ss r w).0
  unfolding retry_each
  retry_each-IsTidy now [] r w h = tt
  retry_each-IsTidy now (s ∷ ss) r w (n, (b, h)) =
      retry_one-stale now s r w _ (retry_each-id s.id now ss _ _ n) b
        (retry_each-IsTidy now ss _ _ h)
