-- ===== src/ContractWarning.antt =====
-- rust/src/contract_warning.rs: warnings about rejected samples, at most one for a topic in each
-- ten seconds. An `Instant` is a number of nanoseconds.
pub mod Throttling
pub mod Bounds
use csyn.Common.{
  ℕ, ◌-◌, ◌*◌, ◌^◌, List, [], ◌∷◌, ◌++◌, Option, none, some, Bool, true, false, ltb, leb,
  if◌then◌else◌,
}
use csyn.Common.Text.{Text, codes}
use csyn.Common.Map.{BTreeMap, get, insert, retain}

abbrev pub warning_interval : ℕ
warning_interval = 10 * 10 ^ 9

pub record ContractWarningThrottle : Type 0 where
  pub last_warning : BTreeMap ℕ

-- `ContractWarningThrottle::default()`
abbrev pub default : ContractWarningThrottle
default = record { last_warning = [] }

-- `Option::is_none_or`
abbrev pub is_none_or : (ℕ → Bool) → Option ℕ → Bool
is_none_or p none = true
is_none_or p (some t) = p t

-- `now.duration_since(last)` is zero where `last` is later, as `-` is.
abbrev pub is_recent : ℕ → ℕ → Bool
is_recent now last = ltb (now - last) warning_interval

abbrev pub is_over : ℕ → ℕ → Bool
is_over now last = leb warning_interval (now - last)

warning_line : Text → Text → Text
warning_line key error =
    codes "warning: rejecting " ++ (key ++ (codes ": " ++ (error ++ codes "\n")))

-- What is left of the entries when a call begins.
unfoldable pub kept : ContractWarningThrottle → ℕ → BTreeMap ℕ
kept t now = retain (is_recent now) t.last_warning

unfoldable pub should_warn : ContractWarningThrottle → ℕ → Text → Bool
unfolding kept
should_warn t now key = is_none_or (is_over now) (get key (kept t now))

-- One call at the time `now`: the new state, and the line that goes to the standard error.
unfoldable pub warn :
    ContractWarningThrottle → ℕ → Text → Text → ContractWarningThrottle × Option Text
unfolding should_warn warning_line
warn t now key error =
    if should_warn t now key
    then (record { last_warning = insert key now (kept t now) }, some (warning_line key error))
    else (record { last_warning = kept t now }, none)
