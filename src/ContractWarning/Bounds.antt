-- ===== src/ContractWarning/Bounds.antt =====
-- The state of the throttle holds no key twice and no entry older than the interval.
use csyn.Common.{ℕ, ◌<◌, ◌-◌, [], ◌∷◌, arith}
use csyn.Common.Text.{Text}
use csyn.Common.Map.{BTreeMap, insert, retain}
use csyn.Common.Map.Sorted.{IsSorted, insert-IsSorted, retain-IsSorted}
use csyn.ContractWarning.{ContractWarningThrottle, is_recent, kept, warn, warning_interval}

-- Every entry is younger than the interval at the time `now`.
abbrev pub IsFresh : ℕ → BTreeMap ℕ → Type 0
IsFresh now [] = Unit
IsFresh now ((k, last) ∷ m) = (now - last < warning_interval) × IsFresh now m

retain-IsFresh : (now : ℕ) (m : BTreeMap ℕ) → IsFresh now (retain (is_recent now) m)
unfolding retain
retain-IsFresh now [] = tt
retain-IsFresh now ((k, last) ∷ m) = ground (arith, retain-IsFresh now m)

insert-IsFresh :
    (now : ℕ) (key : Text) (m : BTreeMap ℕ) → IsFresh now m → IsFresh now (insert key now m)
unfolding insert
insert-IsFresh now key [] h = omega arith
insert-IsFresh now key ((k, last) ∷ m) (p, h) = ground (arith, insert-IsFresh now key m h)

-- After a call that finds the keys of the throttle sorted, they are sorted still, and every entry that is left is
-- younger than ten seconds, whether the call printed or not.
pub warn-IsFresh :
    (t : ContractWarningThrottle) (now : ℕ) (key error : Text)
    → IsSorted t.last_warning
    → IsSorted (warn t now key error).0.last_warning
      × IsFresh now (warn t now key error).0.last_warning
unfolding warn kept
warn-IsFresh t now key error s = ground (
  arith,
  retain-IsFresh now t.last_warning,
  retain-IsSorted (is_recent now) t.last_warning s,
  insert-IsFresh now key (retain (is_recent now) t.last_warning),
  insert-IsSorted key now (retain (is_recent now) t.last_warning),
)
