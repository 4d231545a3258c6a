-- ===== src/Commands/Trace.antt =====
-- A command that has an effect on the outside: its result, and its events in the order in which they happen.
use csyn.Common.{ℕ, List, [], ◌∷◌, ◌++◌}
use csyn.Common.Text.{Text}
use csyn.Common.Bytes.{Bytes}
use csyn.Common.Result.{Result, ok, err, panic}

-- A sample that is put on a key with an encoding.
pub record Publication : Type 0 where
  pub key : Text
  pub payload : Bytes
  pub encoding : Text

-- A pause in nanoseconds, a sample that goes to Zenoh, and a line that goes to the standard output or a file.
pub data Event : Type 0 where
  slept : ℕ → Event
  put : Publication → Event
  printed : Text → Event

abbrev pub Trace : Type 0 → Type 0
Trace A = Result A × List Event

abbrev pub behind : {A : Type 0} → List Event → Trace A → Trace A
behind events (r, more) = (r, events ++ more)

infixl 5 ◌>>=◌ ◌>>◌
abbrev pub ◌>>=◌ : {A B : Type 0} → Trace A → (A → Trace B) → Trace B
(ok a, events) >>= f = behind events (f a)
(err e, events) >>= f = (err e, events)
(panic, events) >>= f = (panic, events)

abbrev pub ◌>>◌ : {A B : Type 0} → Trace A → Trace B → Trace B
m >> k = m >>= λ _. k

abbrev pub lift : {A : Type 0} → Result A → Trace A
lift r = (r, [])

abbrev pub emit : Event → Trace (Unit {0})
emit event = (ok tt, event ∷ [])

-- `println!` of one line after the other.
abbrev pub print_all : List Text → Trace (Unit {0})
print_all [] = lift (ok tt)
print_all (line ∷ lines) = emit (printed line) >> print_all lines

-- The samples among the events.
unfoldable pub puts_of : List Event → List Publication
puts_of [] = []
puts_of (slept d ∷ events) = puts_of events
puts_of (put p ∷ events) = p ∷ puts_of events
puts_of (printed line ∷ events) = puts_of events
