-- ===== src/Commands/Typed.antt =====
-- Traces whose samples all satisfy a predicate, and the one of typed samples: the encoding is the value contract of a topic, and
-- the payload decodes as it.
pub mod Sending
pub mod Printing
use csyn.Common.{List, [], ◌∷◌, ◌++◌, Option, none, some, ◌≡◌, refl, All}
use mathlib.Core.Path.{subst}
use csyn.Common.Text.{Text}
use csyn.Common.Result.{Result, Error, ok, err, panic, map_err}
use csyn.Synapse.{SynapseFbs}
use csyn.Types.Topic.{TopicType, decode, zenoh_encoding}
use csyn.Commands.Trace.{
  Publication, Event, slept, put, printed, Trace, behind, ◌>>=◌, lift, emit, print_all, puts_of,
}

module _ (fbs : SynapseFbs) where
  pub record IsTyped (p : Publication) : Type 0 where
    pub known : TopicType
    pub text : Text
    pub encoded : p.encoding ≡ zenoh_encoding fbs known
    pub decodes : decode fbs known p.payload ≡ ok text

module _ (P : Publication → Type 0) where
  abbrev pub PutsAll : List Event → Type 0
  PutsAll [] = Unit
  PutsAll (slept d ∷ events) = PutsAll events
  PutsAll (put p ∷ events) = P p × PutsAll events
  PutsAll (printed line ∷ events) = PutsAll events

  abbrev pub Sends : {A : Type 0} → Trace A → Type 0
  Sends m = PutsAll m.1

  pub PutsAll-puts_of : (events : List Event) → PutsAll events → All P (puts_of events)
  unfolding puts_of
  PutsAll-puts_of [] h = tt
  PutsAll-puts_of (slept d ∷ events) h = PutsAll-puts_of events h
  PutsAll-puts_of (put p ∷ events) (h, hs) = (h, PutsAll-puts_of events hs)
  PutsAll-puts_of (printed line ∷ events) h = PutsAll-puts_of events h

  PutsAll-append : (es fs : List Event) → PutsAll es → PutsAll fs → PutsAll (es ++ fs)
  PutsAll-append [] fs h k = k
  PutsAll-append (slept d ∷ es) fs h k = PutsAll-append es fs h k
  PutsAll-append (put p ∷ es) fs (h, hs) k = (h, PutsAll-append es fs hs k)
  PutsAll-append (printed line ∷ es) fs h k = PutsAll-append es fs h k

  -- A sequence sends typed samples where its parts do, the rest at each value that the first part can give.
  pub bind-Sends :
      {A B : Type 0} (m : Trace A) (f : A → Trace B)
      → Sends m
      → ((a : A) → m.0 ≡ ok a → Sends (f a))
      → Sends (m >>= f)
  bind-Sends (ok a, es) f h k = PutsAll-append es (f a).1 h (k a refl)
  bind-Sends (err e, es) f h k = h
  bind-Sends (panic, es) f h k = h

  pub lift-Sends :
      {A B : Type 0} (r : Result A) (f : A → Trace B)
      → ((a : A) → r ≡ ok a → Sends (f a))
      → Sends (lift r >>= f)
  lift-Sends r f h = bind-Sends (lift r) f tt h

  pub print_all-Sends : (lines : List Text) → Sends (print_all lines)
  print_all-Sends [] = tt
  print_all-Sends (line ∷ lines) = print_all-Sends lines

pub map_err_ok :
    {A : Type 0} (f : Error → Error) (r : Result A) (a : A) → map_err f r ≡ ok a → r ≡ ok a
map_err_ok f (ok b) a h = h
map_err_ok f (err e) a h = cc
map_err_ok f panic a h = cc
