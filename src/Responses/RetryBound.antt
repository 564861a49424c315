-- ===== src/Responses/RetryBound.antt =====
-- How often, and after which waits, internal/inverter/response_retry.go posts a Response. The world
-- keeps a log of the posts and of the waits asked for.
use ieee_2030_5_client_go.Shared.{
  ℕ, zero, suc, ◌+◌, ◌≤◌, ◌≡◌, List, ◌∷◌, ◌++◌, Option, some, ℤ, ltb_ℤ, ◌≤ℤ◌, if◌then◌else◌, All,
  length, ◌⊎◌,
}
use ieee_2030_5_client_go.Responses.Retry.{PostError, RetryError, wrapped, dead_letter, Schedule}

-- The world, with the number of posts and the waits, the last one first.
pub record World (V : Type 0) : Type 0 where
  pub outside : V
  pub posts : ℕ
  pub waits : List ℤ

module _ {V : Type 0} (send : V → Option PostError × V) (sleep : ℤ → V → Option PostError × V) where
  abbrev pub post : World V → Option PostError × World V
  post w = let (r, v) = send w.outside in (r, record w { outside = v; posts = suc w.posts })

  abbrev pub wait : ℤ → World V → Option PostError × World V
  wait d w = let (r, v) = sleep d w.outside in (r, record w { outside = v; waits = d ∷ w.waits })

  -- A dead letter comes after all posts, and counts them.
  abbrev pub Final : Schedule → ℕ → World V → Option RetryError → World V → Type 0
  Final s total w (some (dead_letter n e)) w' = (n ≡ s.attempts) × (w'.posts ≡ w.posts + total)
  Final s total w _ w' = Unit

  -- One post more than waits; or as many, where a wait was cut short and its error returned.
  abbrev pub Paced : World V → Option RetryError → World V → Type 0
  Paced w r w' =
      (w'.posts + length w.waits ≡ suc (w.posts + length w'.waits))
      ⊎ ((w'.posts + length w.waits ≡ w.posts + length w'.waits)
          × ((f : PostError) × (r ≡ some (wrapped f))))

  -- The delays of `k` waits, the last one first: each is the one before, scaled, but at most the cap.
  abbrev pub delays : Schedule → ℤ → ℕ → List ℤ → List ℤ
  delays s d zero ds = ds
  delays s d (suc k) ds =
      delays s (if ltb_ℤ s.max_delay (s.scale d) then s.max_delay else s.scale d) k (d ∷ ds)

  -- The end of a loop that could post `total` times, with a first wait of `delay`: at least one post
  -- and at most all of them; one post more than waits, but after an aborted wait; only the
  -- first wait may exceed the cap; a dead letter only after all posts, and with the transient error.
  abbrev pub Bounded : Schedule → ℕ → ℤ → World V → Option RetryError × World V → Type 0
  Bounded s total delay w (r, w') =
      (suc w.posts ≤ w'.posts)
      × (w'.posts ≤ w.posts + total)
      × ((w'.waits ≡ w.waits)
          ⊎ ((later : List ℤ) × (w'.waits ≡ later ++ delay ∷ w.waits)
              × All (λ d. d ≤ℤ s.max_delay) later))
      × ((k : ℕ) × (w'.waits ≡ delays s delay k w.waits))
      × Paced w r w'
      × Final s total w r w'
