-- ===== src/ControlCache/Polling.antt =====
-- PollDERControlList of internal/inverter/dercontrol_poll.go: the loop that fills the cache. A round
-- is what a read at each href then gives, or the end of the context.
use ieee_2030_5_client_go.Shared.{
  suc, ◌+◌, ◌≡◌, refl, sym, subst, ◌∙◌, ap, Bool, true, false, not, List, [], ◌∷◌, Option, none,
  some, String, str_eq, if◌then◌else◌, length, arith,
}
use ieee_2030_5_client_go.ControlCache.{Cache, ListResult, update, refresh}

-- The answer to a GET of the list: an error; an error that is Canceled or DeadlineExceeded, as the
-- context's own are and the timeout of the HTTP client; or the list and the href that it moved to, or
-- "".
pub data Answer : Type 0 where
  fails : Answer
  ends : Answer
  lists : ListResult → String → Answer

pub data Round : Type 0 where
  done : Round
  ticks : (String → Answer) → Round

-- The variables of the loop, and the hrefs asked so far, the last first.
pub record Poller : Type 0 where
  pub href : String
  pub cache : Cache
  pub asked : List String

-- pollDERControlListOnce and what the loop makes of it: the poller, and whether the loop goes on.
unfoldable pub take_answer : Answer → Poller → Poller × Bool
take_answer fails p = (p, true)
take_answer ends p = (p, false)
take_answer (lists list new_href) p = (
  record p {
    href = if not (str_eq new_href "") then new_href else p.href;
    cache = update p.cache list;
  },
  true,
)

unfoldable pub poll_once : (String → Answer) → Poller → Poller × Bool
unfolding take_answer
poll_once server p = take_answer (server p.href) (record p { asked = p.href ∷ p.asked })

-- The loop; the second component says whether it still runs.
unfoldable pub poll_rounds : List Round → Poller → Poller × Bool
poll_rounds [] p = (p, true)
poll_rounds (done ∷ rs) p = (p, false)
poll_rounds (ticks server ∷ rs) p =
    let (p', on) = poll_once server p in
    let later = poll_rounds rs p' in if on then later else (p', false)

-- PollDERControlList: the first read comes at once. An empty href is an error, and so is a nil cache.
unfoldable pub poll_der_control_list :
    String → Option Cache → (String → Answer) → List Round → Option (Poller × Bool)
unfolding poll_once
poll_der_control_list href none server rounds = none
poll_der_control_list href (some cache) server rounds =
    if str_eq href ""
    then none
    else some
        (poll_rounds (ticks server ∷ rounds) (record { href = href; cache = cache; asked = [] }))

-- An account of the same rounds: the list of the last answer that is one, and the href it was asked at
-- or moved to.
unfoldable pub followed : String → Answer → String
followed href (lists list new_href) = if str_eq new_href "" then href else new_href
followed href fails = href
followed href ends = href

listed_last : Option ListResult → Answer → Option ListResult
listed_last o (lists list new_href) = some list
listed_last o fails = o
listed_last o ends = o

abbrev is_end : Answer → Bool
is_end ends = true
is_end _ = false

-- No answer and no round ends the loop, along the hrefs that are followed.
unfoldable pub Undisturbed : String → List Round → Type 0
Undisturbed href [] = Unit
Undisturbed href (done ∷ rs) = ⊥
Undisturbed href (ticks server ∷ rs) =
    (is_end (server href) ≡ false) × Undisturbed (followed href (server href)) rs

pub last_list : String → Option ListResult → List Round → Option ListResult
last_list href o [] = o
last_list href o (done ∷ rs) = o
last_list href o (ticks server ∷ rs) =
    last_list (followed href (server href)) (listed_last o (server href)) rs

-- The cache that a last list leaves.
pub cache_after : Cache → Option ListResult → Cache
cache_after c none = c
cache_after c (some list) = update c list

-- The cache before an update does not matter.
cache_after-update :
    (c : Cache) (a : ListResult) (o : Option ListResult)
    → cache_after (update c a) o ≡ cache_after c (elim o [ none ↦ some a | some b ↦ some b ])
unfolding cache_after update refresh
cache_after-update c a none = refl
cache_after-update c a (some b) = refl

taken :
    (a : Answer) (p : Poller) (c : Cache) (o : Option ListResult)
    → p.cache ≡ cache_after c o
    → is_end a ≡ false
    → ((take_answer a p).1 ≡ true)
      × ((take_answer a p).0.cache ≡ cache_after c (listed_last o a))
      × ((take_answer a p).0.href ≡ followed p.href a)
      × ((take_answer a p).0.asked ≡ p.asked)
unfolding take_answer cache_after listed_last followed update refresh
taken fails p c o h e = (refl, h, refl, refl)
taken ends p c o h e = absurd (cc)
taken (lists list href) p c o h e = (refl, refl, ground arith, refl)

rounds_lem :
    (rs : List Round) (p : Poller) (c : Cache) (o : Option ListResult)
    → p.cache ≡ cache_after c o
    → Undisturbed p.href rs
    → ((poll_rounds rs p).1 ≡ true)
      × ((poll_rounds rs p).0.cache ≡ cache_after c (last_list p.href o rs))
      × (length (poll_rounds rs p).0.asked ≡ length rs + length p.asked)
unfolding poll_rounds poll_once Undisturbed last_list
rounds_lem [] p c o h u = (refl, h, omega arith)
rounds_lem (done ∷ rs) p c o h u = elim u [ ]
rounds_lem (ticks server ∷ rs) p c o h u =
    let q : Poller = record p { asked = p.href ∷ p.asked } in
    let (on, cached, moved, kept) = taken (server p.href) q c o h u.0 in
    let p' = (take_answer (server p.href) q).0 in
    let ih =
      rounds_lem rs p' c (listed_last o (server p.href)) cached
        (subst (λ x. Undisturbed x rs) (sym moved) u.1) in
    subst
      (λ b.
        let r = if b then poll_rounds rs p' else (p', false) in
        (r.1 ≡ true)
        × (r.0.cache
            ≡ cache_after c
                (last_list (followed p.href (server p.href)) (listed_last o (server p.href)) rs))
        × (length r.0.asked ≡ suc (length rs) + length p.asked))
      (sym on)
      (
        ih.0,
        subst
            (λ x.
              (poll_rounds rs p').0.cache
              ≡ cache_after c (last_list x (listed_last o (server p.href)) rs))
            moved ih.1,
        omega (arith, ih.2, ap length kept),
      )

-- As long as no read fails with an error that is Canceled or DeadlineExceeded, which the timeout of the
-- HTTP client is too, and no round is the end of the context, the loop goes on, whatever other errors
-- the reads fail with: it has asked once at the start and once in each round; and the cache is the one
-- that the last list of those answers leaves, each asked at the href it was given or had been
-- redirected to.
pub poll_der_control_list_lem :
    (href : String) (c : Cache) (server : String → Answer) (rs : List Round) (p : Poller)
    (on : Bool)
    → poll_der_control_list href (some c) server rs ≡ some (p, on)
    → Undisturbed href (ticks server ∷ rs)
    → (on ≡ true)
      × (p.cache ≡ cache_after c (last_list href none (ticks server ∷ rs)))
      × (length p.asked ≡ length rs + 1)
unfolding poll_der_control_list
poll_der_control_list_lem href c server rs p on h u =
    let start : Poller = record { href = href; cache = c; asked = [] } in
    let (goes, cached, counted) =
      rounds_lem (ticks server ∷ rs) start c none (unfold cache_after in refl) u in
    let whole : poll_rounds (ticks server ∷ rs) start ≡ (p, on) = ground arith in
    (
      ap (λ (x : Poller × Bool). x.1) (sym whole) ∙ goes,
      ap (λ (x : Poller × Bool). x.0.cache) (sym whole) ∙ cached,
      omega (arith, counted, ap (λ (x : Poller × Bool). length x.0.asked) whole),
    )
