-- ===== src/Commands/Clock.antt =====
-- Durations of rust/src/main.rs. The `f64` of the command line and the arithmetic of `std::time` are a parameter.
use csyn.Common.{ℕ, Bool, ◌||◌, not, Option, none, some, if◌then◌else◌}
use csyn.Common.Result.{Result, ok, err, ◌>>=◌, expect, invalid_duration}

-- What the commands use of `f64` (`F`) and `std::time`, on numbers of nanoseconds. A `none` is the panic of a result that
-- is negative, not finite or too large.
pub record StdTime (F : Type 0) : Type 0 where
  pub is_below_zero : F → Bool
  pub is_at_most_zero : F → Bool
  pub is_above_zero : F → Bool
  pub is_finite : F → Bool
  pub from_secs_f64 : F → Option ℕ
  -- `Instant + Duration`
  pub add : ℕ → ℕ → Option ℕ
  -- `Duration::from_secs_f64(1.0 / rate)`
  pub from_rate : F → Option ℕ
  -- `Duration::from_secs_f64(delta_ns as f64 / 1e9 / rate)`
  pub scaled : F → ℕ → Option ℕ

module _ {F : Type 0} (time : StdTime F) where
  unfoldable pub duration_from_secs : F → Result ℕ
  duration_from_secs seconds =
      if time.is_below_zero seconds || not (time.is_finite seconds)
      then err invalid_duration
      else expect (time.from_secs_f64 seconds)

  -- `Instant::now() + duration_from_secs(duration)?`
  unfoldable pub deadline_after : ℕ → F → Result ℕ
  deadline_after started duration = do
    length ← duration_from_secs duration
    expect (time.add started length)

  -- `duration.map(duration_from_secs).transpose()?.map(|duration| started + duration)`
  unfoldable pub optional_deadline : ℕ → Option F → Result (Option ℕ)
  optional_deadline started none = ok none
  optional_deadline started (some duration) = do
    deadline ← deadline_after started duration
    ok (some deadline)
