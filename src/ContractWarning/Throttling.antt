-- ===== src/ContractWarning/Throttling.antt =====
-- A run of calls prints exactly what a throttle that never forgets would print.
use csyn.Common.{
  ℕ, ◌≤◌, List, [], ◌∷◌, Option, none, some, Bool, true, not, ◌&&◌, ◌≡◌, refl, arith, any,
  if◌then◌else◌, ap, Bool-cases, inl, inr,
}
use csyn.Common.Text.{Text, list_eq}
use csyn.Common.TextOrder.{list_eq_iff}
use csyn.Common.Map.{BTreeMap, get, insert}
use csyn.Common.Map.Laws.{get-insert}
use csyn.Common.Map.Sorted.{IsSorted, insert-IsSorted, retain-IsSorted, get-retain}
use csyn.ContractWarning.{
  ContractWarningThrottle, default, is_recent, is_over, is_none_or, kept, should_warn, warn,
  warning_line,
}

pub record Call : Type 0 where
  pub now : ℕ
  pub key : Text
  pub error : Text

-- The lines of a run of calls.
unfoldable pub run : ContractWarningThrottle → List Call → List (Option Text)
run t [] = []
run t (c ∷ cs) = let (t', line) = warn t c.now c.key c.error in line ∷ run t' cs

-- The printed warnings, latest first: their keys and times.
abbrev Log : Type 0
Log = List (Text × ℕ)

-- No warning about `key` was printed less than the interval ago.
abbrev is_quiet : Log → ℕ → Text → Bool
is_quiet log now key = not (any (λ e. list_eq e.0 key && is_recent now e.1) log)

-- The reference: a call prints if its key is quiet, and every printed warning is remembered.
pub reference : Log → List Call → List (Option Text)
reference log [] = []
reference log (c ∷ cs) =
    if is_quiet log c.now c.key
    then some (warning_line c.key c.error) ∷ reference ((c.key, c.now) ∷ log) cs
    else none ∷ reference log cs

-- The clock does not run backwards: no call is before `now` or before the call ahead of it.
abbrev pub IsFrom : ℕ → List Call → Type 0
IsFrom now [] = Unit
IsFrom now (c ∷ cs) = (now ≤ c.now) × IsFrom c.now cs

-- From `now` on the map answers as the log does.
record Agrees (now : ℕ) (m : BTreeMap ℕ) (log : Log) : Type 0 where
  sorted : IsSorted m
  same :
      (later : ℕ) (key : Text)
      → now ≤ later
      → is_none_or (is_over later) (get key m) ≡ is_quiet log later key

is_quiet_later :
    (log : Log) (now later : ℕ) (key : Text)
    → now ≤ later
    → is_quiet log now key ≡ true
    → is_quiet log later key ≡ true
is_quiet_later [] now later key h q = refl
is_quiet_later ((k, t) ∷ log) now later key h q = ground (arith, is_quiet_later log now later key h)

Agrees-kept :
    (t : ContractWarningThrottle) (now now' : ℕ) (log : Log)
    → now ≤ now'
    → Agrees now t.last_warning log
    → Agrees now' (kept t now') log
unfolding kept
Agrees-kept t now now' log h a = record {
  sorted = retain-IsSorted (is_recent now') t.last_warning a.sorted;
  same = λ later key k.
      ground (arith, get-retain (is_recent now') key t.last_warning a.sorted, a.same later key);
}

Agrees-insert :
    (m : BTreeMap ℕ) (now : ℕ) (key : Text) (log : Log)
    → is_quiet log now key ≡ true
    → Agrees now m log
    → Agrees now (insert key now m) ((key, now) ∷ log)
Agrees-insert m now key log q a = record {
  sorted = insert-IsSorted key now m a.sorted;
  same = λ later j k. ground (
    arith,
    get-insert j key now m,
    list_eq_iff key j,
    is_quiet_later log now later key,
    a.same later j,
  );
}

run-Agrees :
    (cs : List Call) (t : ContractWarningThrottle) (now : ℕ) (log : Log)
    → IsFrom now cs
    → Agrees now t.last_warning log
    → run t cs ≡ reference log cs
unfolding run reference warn
run-Agrees [] t now log h a = refl
run-Agrees (c ∷ cs) t now log (h, hs) a =
    let kept_agrees = Agrees-kept t now c.now log h a in
    let decided : should_warn t c.now c.key ≡ is_quiet log c.now c.key =
      unfold should_warn in kept_agrees.same c.now c.key (omega arith) in
    elim (Bool-cases (is_quiet log c.now c.key)) [
      | inl q ↦
          rw (decided, q)
            (ap (λ (l : List (Option Text)). some (warning_line c.key c.error) ∷ l)
              (run-Agrees cs (record { last_warning = insert c.key c.now (kept t c.now) }) c.now
                ((c.key, c.now) ∷ log) hs
                (Agrees-insert (kept t c.now) c.now c.key log q kept_agrees)))
      | inr q ↦
          rw (decided, q)
            (ap (λ (l : List (Option Text)). none ∷ l)
              (run-Agrees cs (record { last_warning = kept t c.now }) c.now log hs kept_agrees))
    ]

-- On calls whose times do not fall, a new throttle prints exactly the lines that the reference prints: a
-- call prints if and only if no warning with its key was printed less than ten seconds before.
pub run-reference : (now : ℕ) (cs : List Call) → IsFrom now cs → run default cs ≡ reference [] cs
run-reference now cs h =
    run-Agrees cs default now [] h
      (record { sorted = tt; same = λ later key k. unfold get in refl })
