-- ===== src/Commands/Record/Recorded.antt =====
-- A recording holds exactly the samples that it is meant to hold.
use csyn.Common.{
  ℕ, ◌+◌, ◌%◌, ◌^◌, ◌<◌, List, [], ◌∷◌, ◌++◌, Option, none, some, false, ◌≡◌, ◌≢◌, refl, sym, ap,
  ◌∙◌, arith, All, Bool-cases, inl, inr, length, filter_map,
}
use mathlib.Core.Path.{subst}
use mathlib.Core.List.{append_assoc, append-nil}
use csyn.Common.Text.{Text}
use csyn.Common.Result.{Result, Error, ok, panic, bind_ok, Result-cases, is_ok, is_err, is_panic}
use csyn.Synapse.{SynapseFbs}
use csyn.Types.Topic.{TopicType}
use csyn.ContractWarning.{ContractWarningThrottle, warn}
use csyn.Bag.Writer.{McapWriter, BagWriter, ◌>>◌}
use csyn.Bag.Writer.Steps.{Message, Promises, contents_of}
use csyn.Bag.Writer.Success.{IsAccepting}
use csyn.Commands.Receive.{Sample, Poll, timed_out, failed, received, require_value_type}
use csyn.Commands.Record.Loop.{Round, is_reached, record_sample, record_loop}
use csyn.Commands.Record.Taken.{Taken, accept, before, taken, message_for, messages_for}
use csyn.Commands.Record.Written.{IsOpen, ok_inj, record_sample_ok}
use csyn.Commands.Record.Limit.{
  Fits, Fits-small, Fits-next, next, up_to-nil, up_to-reached, up_to-cons,
}

-- The poll does not fail, and the value contract of a sample does not make `from_value_encoding` panic.
abbrev pub IsSound : SynapseFbs → Option TopicType → Poll → Type 0
IsSound fbs forced_type timed_out = Unit
IsSound fbs forced_type (failed e) = ⊥
IsSound fbs forced_type (received s) = require_value_type fbs s.key s.encoding forced_type ≢ panic

-- The sample has the type that `type_of` names for its key.
abbrev pub IsTypedAs : (Text → TopicType) → Taken → Type 0
IsTypedAs type_of t = t.known ≡ type_of t.sample.key

module _ {W C : Type 0} (lib : McapWriter W C) (fbs : SynapseFbs) (display : Error → Text)
    (promises : Promises lib) (accepting : IsAccepting lib) (type_of : Text → TopicType)
    (forced_type : Option TopicType) (deadline max_messages : Option ℕ) where
  abbrev left : ℕ → List Round → List Taken
  left recorded rounds = taken fbs forced_type deadline max_messages recorded rounds

  -- The result is a bag with the messages `ms` behind those of `b`, and their number.
  abbrev pub Records : BagWriter W C → ℕ → List Message → Result ℕ × BagWriter W C → Type 0
  Records b recorded ms r =
      (b' : BagWriter W C) × (r ≡ (ok ((recorded + length ms) % 2 ^ 64), b'))
      × IsOpen lib fbs promises type_of b'
      × (contents_of lib fbs promises b' ≡ contents_of lib fbs promises b ++ ms)

  abbrev Holds : List Round → Type 0
  Holds rounds =
      (warnings : ContractWarningThrottle) (recorded : ℕ) (b : BagWriter W C) (ms : List Message)
      (ts : List Taken)
      → left recorded rounds ≡ ts
      → All (λ r. IsSound fbs forced_type r.poll) rounds
      → All (IsTypedAs type_of) ts
      → messages_for fbs ts ≡ ok ms
      → Fits max_messages recorded
      → IsOpen lib fbs promises type_of b
      → Records b recorded ms
          (record_loop lib fbs display forced_type deadline max_messages warnings recorded rounds b)

  stopped :
      (recorded : ℕ) (b : BagWriter W C) (ms : List Message) (ts : List Taken)
      → [] ≡ ts
      → messages_for fbs ts ≡ ok ms
      → Fits max_messages recorded
      → IsOpen lib fbs promises type_of b
      → Records b recorded ms (ok recorded, b)
  unfolding messages_for
  stopped recorded b ms [] e h f o =
      let empty : [] ≡ ms = ok_inj h in
      let small : recorded < 2 ^ 64 = Fits-small max_messages recorded f in
      let same : recorded ≡ (recorded + 0) % 2 ^ 64 = omega arith in
      subst (λ ms'. Records b recorded ms' (ok recorded, b)) empty
        (b, (λ i. (ok (same i), b)), o, sym (append-nil (contents_of lib fbs promises b)))
  stopped recorded b ms (t ∷ ts) e h f o = cc

  -- A round in which no sample is accepted, and one in which the sample of `t` is.
  left-skip :
      (recorded : ℕ) (r : Round) (rounds : List Round)
      → is_reached deadline r.now ≡ false
      → accept fbs forced_type r ≡ none
      → left recorded (r ∷ rounds) ≡ left recorded rounds
  left-skip recorded r rounds d e = rw (d, filter_map, e) refl

  left-take :
      (recorded : ℕ) (r : Round) (rounds : List Round) (t : Taken)
      → is_reached deadline r.now ≡ false
      → is_reached max_messages recorded ≡ false
      → Fits max_messages recorded
      → accept fbs forced_type r ≡ some t
      → left recorded (r ∷ rounds) ≡ t ∷ left (next recorded) rounds
  left-take recorded r rounds t d m f e =
      rw (d, filter_map, e)
        (up_to-cons max_messages recorded t
          (filter_map (accept fbs forced_type) (before deadline rounds)) f m)

  -- A sample is accepted and written, and the loop goes on.
  recorded_one :
      (s : Sample) (clock : Option ℕ) (known : TopicType) (rounds : List Round)
      → Holds rounds
      → (warnings : ContractWarningThrottle) (recorded : ℕ) (b : BagWriter W C) (ms : List Message)
        (ts : List Taken)
      → record { sample = s; known = known; clock = clock } ∷ left (next recorded) rounds ≡ ts
      → All (λ r. IsSound fbs forced_type r.poll) rounds
      → All (IsTypedAs type_of) ts
      → messages_for fbs ts ≡ ok ms
      → Fits max_messages recorded
      → IsOpen lib fbs promises type_of b
      → Records b recorded ms (
          (record_sample lib fbs s clock known
              >> record_loop lib fbs display forced_type deadline max_messages warnings
                  (next recorded)
                  rounds)
            b)
  unfolding messages_for
  recorded_one s clock known rounds ih warnings recorded b ms [] e a typed h f o = cc
  recorded_one s clock known rounds ih warnings recorded b ms (t ∷ ts) e a (same, typed) h f o =
      let heads : record { sample = s; known = known; clock = clock } ≡ t = cc in
      let tails : left (next recorded) rounds ≡ ts = cc in
      let (m, e1, h1) = bind_ok _ ms (message_for fbs t) h in
      let (ms', e2, h2) = bind_ok _ ms (messages_for fbs ts) h1 in
      let (b1, run1, o1, c1) =
        record_sample_ok lib fbs promises type_of accepting t m b e1 same o in
      let (b2, run2, o2, c2) =
        ih warnings (next recorded) b1 ms' ts tails a typed e2 (Fits-next max_messages recorded f)
          o1 in
      let count : (next recorded + length ms') % 2 ^ 64 ≡ (recorded + length (m ∷ ms')) % 2 ^ 64 =
        omega arith in
      let run : record_sample lib fbs s clock known b ≡ (ok tt, b1) =
        subst (λ x. record_sample lib fbs x.sample x.clock x.known b ≡ (ok tt, b1)) (sym heads)
          run1 in
      let all : Records b recorded (m ∷ ms') (
          (record_sample lib fbs s clock known
              >> record_loop lib fbs display forced_type deadline max_messages warnings
                  (next recorded) rounds)
            b) =
        (
          b2,
          rw run (run2 ∙ λ i. (ok (count i), b2)),
          o2,
          c2 ∙ (ap (λ x. x ++ ms') c1 ∙ append_assoc (contents_of lib fbs promises b) (m ∷ []) ms'),
        ) in
      let same_ms : (m ∷ ms') ≡ ms = ok_inj h2 in
      (
        all.0,
        all.1 ∙ λ i. (ok ((recorded + length (same_ms i)) % 2 ^ 64), all.0),
        all.2,
        all.3 ∙ λ i. contents_of lib fbs promises b ++ same_ms i,
      )

  -- A round before which the loop does not stop, by its poll.
  polled :
      (now : ℕ) (poll : Poll) (clock : Option ℕ) (rounds : List Round)
      → Holds rounds
      → (warnings : ContractWarningThrottle) (recorded : ℕ) (b : BagWriter W C) (ms : List Message)
        (ts : List Taken)
      → is_reached deadline now ≡ false
      → is_reached max_messages recorded ≡ false
      → left recorded (record { now = now; poll = poll; clock = clock } ∷ rounds) ≡ ts
      → IsSound fbs forced_type poll
      → All (λ r. IsSound fbs forced_type r.poll) rounds
      → All (IsTypedAs type_of) ts
      → messages_for fbs ts ≡ ok ms
      → Fits max_messages recorded
      → IsOpen lib fbs promises type_of b
      → Records b recorded ms (
          record_loop lib fbs display forced_type deadline max_messages warnings recorded
            (record { now = now; poll = poll; clock = clock } ∷ rounds)
            b)
  unfolding accept record_loop
  polled now timed_out clock rounds ih warnings recorded b ms ts d m e s a typed h f o =
      rw (record_loop, d, m)
        (ih warnings recorded b ms ts (sym (left-skip recorded _ rounds d refl) ∙ e) a typed h f o)
  polled now (failed x) clock rounds ih warnings recorded b ms ts d m e s a typed h f o = absurd s
  polled now (received s) clock rounds ih warnings recorded b ms ts d m e sound a typed h f o =
      let r : Round = record { now = now; poll = received s; clock = clock } in
      elim (Result-cases (require_value_type fbs s.key s.encoding forced_type)) [
        | is_panic q ↦ absurd (sound q)
        | is_err x q ↦
            rw (record_loop, d, m, q)
              (ih (warn warnings s.now s.key (display x)).0 recorded b ms ts
                (sym (left-skip recorded r rounds d (rw (accept, q) refl)) ∙ e) a typed h f o)
        | is_ok known q ↦
            let t : Taken = record { sample = s; known = known; clock = clock } in
            rw (record_loop, d, m, q)
              (recorded_one s clock known rounds ih warnings recorded b ms ts
                (sym (left-take recorded r rounds t d m f (rw (accept, q) refl)) ∙ e) a typed h f o)
      ]

  loop-Holds : (rounds : List Round) → Holds rounds
  unfolding record_loop
  loop-Holds [] warnings recorded b ms ts e a typed h f o =
      stopped recorded b ms ts (sym (up_to-nil max_messages recorded) ∙ e) h f o
  loop-Holds (r ∷ rounds) warnings recorded b ms ts e (s, a) typed h f o =
      elim (Bool-cases (is_reached deadline r.now)) [
        | inl d ↦
            let nothing : left recorded (r ∷ rounds) ≡ [] =
              rw (d, filter_map) (up_to-nil max_messages recorded) in
            rw (record_loop, d) (stopped recorded b ms ts (sym nothing ∙ e) h f o)
        | inr d ↦ elim (Bool-cases (is_reached max_messages recorded)) [
          | inl m ↦
              let nothing : left recorded (r ∷ rounds) ≡ [] =
                up_to-reached max_messages recorded _ m in
              rw (record_loop, d, m) (stopped recorded b ms ts (sym nothing ∙ e) h f o)
          | inr m ↦
              polled r.now r.poll r.clock rounds (loop-Holds rounds) warnings recorded b ms ts d m e
                s a typed h f o
        ]
      ]

  -- Where receiving does not fail, no value contract makes `from_value_encoding` panic, the samples that are to be
  -- recorded have the types that `type_of` names for their keys and can be stored as `ms`, over an open bag and a writer that
  -- does not fail: the loop succeeds, appends exactly the messages `ms` in order, and counts them modulo 2^64.
  pub record_loop-Records :
      (warnings : ContractWarningThrottle) (recorded : ℕ) (rounds : List Round) (b : BagWriter W C)
      (ms : List Message)
      → All (λ r. IsSound fbs forced_type r.poll) rounds
      → All (IsTypedAs type_of) (taken fbs forced_type deadline max_messages recorded rounds)
      → messages_for fbs (taken fbs forced_type deadline max_messages recorded rounds) ≡ ok ms
      → Fits max_messages recorded
      → IsOpen lib fbs promises type_of b
      → Records b recorded ms
          (record_loop lib fbs display forced_type deadline max_messages warnings recorded rounds b)
  record_loop-Records warnings recorded rounds b ms a typed h f o =
      loop-Holds rounds warnings recorded b ms _ refl a typed h f o
