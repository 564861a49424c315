-- ===== src/LogEventLimiter.antt =====
-- internal/inverter/log_event_ratelimiter.go: the limit of log events for each code. Instants are in
-- nanoseconds; the readings of the clock are arguments, and the mutex is left out.
pub mod Spacing
use ieee_2030_5_client_go.Shared.{
  ℕ, ◌*◌, ◌^◌, Bool, true, false, List, [], ◌∷◌, none, some, if◌then◌else◌, ℤ, pos, ◌-ℤ◌, ltb_ℤ,
}
use ieee_2030_5_client_go.Shared.Map.{lookup, insert, nat_eq}

pub record Limiter : Type 0 where
  pub window : ℤ
  pub last_emit : List (ℕ × ℤ)

-- DefaultLogEventWindow.
abbrev pub default_log_event_window : ℤ
default_log_event_window = pos (60 * 10 ^ 9)

-- NewPerCodeLogEventLimiter.
unfoldable pub new_limiter : ℤ → Limiter
new_limiter window = record {
  window = if ltb_ℤ (pos 0) window then window else default_log_event_window;
  last_emit = [];
}

-- PerCodeLogEventLimiter.Allow, for a code (uint8).
unfoldable pub allow_event : ℕ → ℤ → Limiter → Bool × Limiter
allow_event code now l =
    let emit : Bool × Limiter = (true, record l { last_emit = insert code now l.last_emit }) in
    elim (lookup code l.last_emit) [
      | none ↦ emit
      | some last ↦ if ltb_ℤ (now -ℤ last) l.window then (false, l) else emit
    ]
