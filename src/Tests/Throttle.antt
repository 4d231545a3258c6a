-- ===== src/Tests/Throttle.antt =====
-- The throttle on a run of four calls.
use csyn.Common.{ℕ, ◌*◌, ◌^◌, List, [], ◌∷◌, none, some, ◌≡◌, refl, arith}
use csyn.Common.Text.{Text, codes, list_eq, text_lt}
use csyn.Common.Map.{get, insert, retain}
use csyn.Common.Map.Sorted.{IsSorted}
use csyn.ContractWarning.{ContractWarningThrottle, default, kept, warn}
use csyn.ContractWarning.Throttling.{Call, run, reference, run-reference}
use csyn.ContractWarning.Bounds.{IsFresh, warn-IsFresh}

abbrev call : ℕ → Text → Call
call seconds key = record { now = seconds * 10 ^ 9; key = key; error = codes "bad" }

-- The second call comes too early, and the fourth is ten seconds after the first.
abbrev calls : List Call
calls = call 1 (codes "a") ∷ call 4 (codes "a") ∷ call 5 (codes "b") ∷ call 11 (codes "a") ∷ []

throttled_calls :
    run default calls
    ≡ some (codes "warning: rejecting a: bad\n")
      ∷ none
      ∷ some (codes "warning: rejecting b: bad\n")
      ∷ some (codes "warning: rejecting a: bad\n")
      ∷ []
unfolding run warn kept get insert retain list_eq text_lt
throttled_calls = refl

run-reference_example : run default calls ≡ reference [] calls
run-reference_example = run-reference 0 calls (omega arith)

abbrev warned : ContractWarningThrottle
warned = record { last_warning = (codes "a", 7) ∷ (codes "b", 3 * 10 ^ 9) ∷ [] }

warned-IsSorted : IsSorted warned.last_warning
unfolding text_lt
warned-IsSorted = ((refl, tt), (tt, tt))

warn-IsFresh_example :
    IsSorted (warn warned (12 * 10 ^ 9) (codes "a") []).0.last_warning
    × IsFresh (12 * 10 ^ 9) (warn warned (12 * 10 ^ 9) (codes "a") []).0.last_warning
warn-IsFresh_example = warn-IsFresh warned (12 * 10 ^ 9) (codes "a") [] warned-IsSorted
