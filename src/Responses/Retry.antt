-- ===== src/Responses/Retry.antt =====
-- internal/inverter/response_retry.go: the attempts at one Response. The poster and the clock are
-- functions of one state, that of the world outside, which the context is read from.
use ieee_2030_5_client_go.Shared.{
  ℕ, zero, suc, ◌-◌, Option, none, some, String, if◌then◌else◌, ltb_ℤ, ℤ, pos,
}

-- The classes of error that the loop tells apart: one that wraps Canceled or DeadlineExceeded, one
-- that wraps ErrResponseTransient and neither of those, and any other.
pub data PostError : Type 0 where
  context_error transient_error other_error : String → PostError

pub data RetryError : Type 0 where
  -- "post response: %w", the error as it is, and the dead letter after a number of attempts.
  wrapped : PostError → RetryError
  unchanged : PostError → RetryError
  dead_letter : ℕ → PostError → RetryError

-- ResponseRetryConfig: `multiplier` is none where BackoffMultiplier is below 1.0, and is otherwise the
-- scaling of a delay by it; defaults replace none.
pub record Config : Type 0 where
  pub max_attempts : ℤ
  pub initial_delay : ℤ
  pub max_delay : ℤ
  pub multiplier : Option (ℤ → ℤ)

-- The configuration after withDefaults.
pub record Schedule : Type 0 where
  pub attempts : ℕ
  pub initial_delay : ℤ
  pub max_delay : ℤ
  pub scale : ℤ → ℤ

abbrev pub or_default : ℤ → ℤ → ℤ
or_default x d = if ltb_ℤ (pos 0) x then x else d

abbrev pub to_nat : ℤ → ℕ
to_nat (pos n) = n
to_nat _ = 0

-- withDefaults; `double` scales by defaultRetryBackoffMultiplier.
unfoldable pub with_defaults : (ℤ → ℤ) → Config → Schedule
with_defaults double cfg = record {
  attempts = to_nat (or_default cfg.max_attempts (pos 3));
  initial_delay = or_default cfg.initial_delay (pos 500000000);
  max_delay = or_default cfg.max_delay (pos 30000000000);
  scale = elim cfg.multiplier [ none ↦ double | some f ↦ f ];
}

-- The next delay, capped.
unfoldable pub next_delay : Schedule → ℤ → ℤ
next_delay s delay = let d = s.scale delay in if ltb_ℤ s.max_delay d then s.max_delay else d

-- DefaultResponseRetryConfig.
abbrev pub default_config : (ℤ → ℤ) → Config
default_config double = record {
  max_attempts = pos 3;
  initial_delay = pos 500000000;
  max_delay = pos 30000000000;
  multiplier = some double;
}

-- What a post leads to: the end of the loop, or another attempt.
pub data Verdict : Type 0 where
  stop : Option RetryError → Verdict
  again : PostError → Verdict

unfoldable pub verdict : Option PostError → Verdict
verdict none = stop none
verdict (some (context_error e)) = stop (some (wrapped (context_error e)))
verdict (some (other_error e)) = stop (some (unchanged (other_error e)))
verdict (some (transient_error e)) = again (transient_error e)

module _ {W : Type 0} (post : W → Option PostError × W) (wait : ℤ → W → Option PostError × W) where
  -- The loop, from an attempt on; `left` attempts may still follow it.
  unfoldable pub attempts_from : Schedule → ℕ → ℤ → W → Option RetryError × W
  attempts_from s zero delay w =
      let (result, w₁) = post w in
      (elim (verdict result) [ stop r ↦ (r, w₁) | again e ↦ (some (dead_letter s.attempts e), w₁) ])
  attempts_from s (suc left) delay w =
      let (result, w₁) = post w in
      let (failed, w₂) = wait delay w₁ in
      (elim (verdict result) [
        | stop r ↦ (r, w₁)
        | again e ↦ elim failed [
          | some f ↦ (some (wrapped f), w₂)
          | none ↦ attempts_from s left (next_delay s delay) w₂
        ]
      ])

  -- postResponseWithRetryClock; `ctx_err` is what the context says before the first attempt.
  unfoldable pub post_response_with_retry :
      (ℤ → ℤ) → (W → Option PostError) → Config → W → Option RetryError × W
  post_response_with_retry double ctx_err cfg w =
      let s = with_defaults double cfg in
      elim (ctx_err w) [
        | some e ↦ (some (wrapped e), w)
        | none ↦ attempts_from s (s.attempts - 1) s.initial_delay w
      ]
