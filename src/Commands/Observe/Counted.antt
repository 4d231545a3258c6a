-- ===== src/Commands/Observe/Counted.antt =====
-- What is counted: the samples before the deadline that have the type of the first one.
use csyn.Common.{
  ℕ, ◌+◌, ◌%◌, ◌^◌, ◌<◌, List, [], ◌∷◌, false, none, some, ◌≡◌, refl, sym, ◌∙◌, arith, leb, ◌==◌,
  length, suc, All, filter, filter_map, Bool-cases, inl, inr,
}
use mathlib.Core.Path.{subst}
use csyn.Common.Text.{Text}
use csyn.Common.Result.{
  Result, Error, ok, err, Result-cases, is_ok, is_err, is_panic, unexpected_type,
}
use csyn.Synapse.{SynapseFbs}
use csyn.Types.Topic.{TopicType}
use csyn.ContractWarning.{ContractWarningThrottle, warn}
use csyn.Commands.Receive.{
  TimedPoll, Sample, Poll, timed_out, failed, received, check_expected, require_value_type,
}
use csyn.Commands.Observe.{Counts, no_counts, add_sample, observe_loop}
use csyn.Commands.Observe.Valid.{
  Valid, of_type, total_bytes, counted, valid, IsSound, require_expected, valid_before,
}

module _ (fbs : SynapseFbs) (display : Error → Text) (deadline : ℕ) where
  abbrev loop : ContractWarningThrottle → Counts → List TimedPoll → Result Counts
  loop warnings c polls = observe_loop fbs display deadline warnings c polls

  abbrev Fits : Counts → Type 0
  Fits c = (c.samples < 2 ^ 64) × (c.bytes < 2 ^ 64)

  -- The result has counted the samples `vs` on top of `c`, and the last type has the number `id`.
  abbrev pub HasCounted : Counts → ℕ → List Valid → Result Counts → Type 0
  HasCounted c id vs r =
      (last : TopicType) × (r
        ≡ ok (record {
          samples = (c.samples + length vs) % 2 ^ 64;
          bytes = (c.bytes + total_bytes vs) % 2 ^ 64;
          known_type = some last;
        }))
      × (last.topic.id ≡ id)

  -- Behind the first sample, of the type `known`.
  abbrev CountsFrom : List TimedPoll → Type 0
  CountsFrom polls =
      (warnings : ContractWarningThrottle) (c : Counts) (known : TopicType) (vs : List Valid)
      → valid_before fbs deadline polls ≡ vs
      → All (λ t. IsSound fbs t.poll) polls
      → Fits c
      → c.known_type ≡ some known
      → HasCounted c known.topic.id (of_type known.topic.id vs) (loop warnings c polls)

  done :
      (c : Counts) (known : TopicType) (vs : List Valid)
      → [] ≡ vs
      → Fits c
      → c.known_type ≡ some known
      → HasCounted c known.topic.id (of_type known.topic.id vs) (ok c)
  done c known [] e f k =
      let samples : c.samples ≡ (c.samples + 0) % 2 ^ 64 = omega arith in
      let bytes : c.bytes ≡ (c.bytes + 0) % 2 ^ 64 = omega arith in
      (known, (λ i. ok (record { samples = samples i; bytes = bytes i; known_type = k i })), refl)
  done c known (v ∷ vs) e f k = cc

  valid-take :
      (t : TimedPoll) (polls : List TimedPoll) (v : Valid)
      → leb deadline t.now ≡ false
      → valid fbs t.poll ≡ some v
      → valid_before fbs deadline (t ∷ polls) ≡ v ∷ valid_before fbs deadline polls
  valid-take t polls v d e = rw (d, filter_map, e) refl

  -- One sample more in front.
  with_one :
      (s : Sample) (known : TopicType) (c : Counts) (id : ℕ) (vs : List Valid) (r : Result Counts)
      → HasCounted (add_sample s known c) id vs r
      → HasCounted c id (record { sample = s; known = known } ∷ vs) r
  with_one s known c id vs r (last, e, h) =
      let samples : ((c.samples + 1) % 2 ^ 64 + length vs) % 2 ^ 64
          ≡ (c.samples + suc (length vs)) % 2 ^ 64 =
        omega arith in
      let bytes : ((c.bytes + length s.payload) % 2 ^ 64 + total_bytes vs) % 2 ^ 64
          ≡ (c.bytes + (length s.payload + total_bytes vs)) % 2 ^ 64 =
        omega arith in
      (
        last,
        e ∙ (λ i. ok (record { samples = samples i; bytes = bytes i; known_type = some last })),
        h,
      )

  -- A sample with a valid contract of the type `actual`.
  accepted :
      (now : ℕ) (s : Sample) (actual : TopicType) (polls : List TimedPoll)
      → CountsFrom polls
      → (warnings : ContractWarningThrottle) (c : Counts) (known : TopicType) (rest : List Valid)
      → leb deadline now ≡ false
      → require_value_type fbs s.key s.encoding none ≡ ok actual
      → valid_before fbs deadline polls ≡ rest
      → All (λ t. IsSound fbs t.poll) polls
      → Fits c
      → c.known_type ≡ some known
      → HasCounted c known.topic.id
          (of_type known.topic.id (record { sample = s; known = actual } ∷ rest))
          (loop warnings c (record { now = now; poll = received s } ∷ polls))
  unfolding observe_loop
  accepted now s actual polls ih warnings c known rest d q e a f k =
      elim (Bool-cases (known.topic.id == actual.topic.id)) [
        | inl same ↦
            let checked : require_value_type fbs s.key s.encoding c.known_type ≡ ok actual = rw k (
              require_expected fbs s.key s.encoding (some known)
              ∙ rw (q, check_expected, same) refl) in
            let ids : known.topic.id ≡ actual.topic.id = ground arith in
            let (last, e1, e2) =
              ih warnings (add_sample s actual c) actual rest e a (omega arith, omega arith) refl in
            rw (observe_loop, d, checked, same, filter)
              (with_one s actual c known.topic.id (of_type known.topic.id rest) _ (
                subst
                  (λ id.
                    HasCounted (add_sample s actual c) id (of_type id rest)
                      (loop warnings (add_sample s actual c) polls))
                  (sym ids) (last, e1, e2)))
        | inr other ↦
            let checked : require_value_type fbs s.key s.encoding c.known_type
                ≡ err (unexpected_type s.key actual.topic.name known.topic.name) =
              rw k (
                require_expected fbs s.key s.encoding (some known)
                ∙ rw (q, check_expected, other) refl) in
            rw (observe_loop, d, checked, other, filter)
              (ih (warn warnings s.now s.key (display _)).0 c known rest e a f k)
      ]

  -- A poll before the deadline, behind the first sample.
  polled :
      (now : ℕ) (poll : Poll) (polls : List TimedPoll)
      → CountsFrom polls
      → (warnings : ContractWarningThrottle) (c : Counts) (known : TopicType)
      → leb deadline now ≡ false
      → IsSound fbs poll
      → All (λ t. IsSound fbs t.poll) polls
      → Fits c
      → c.known_type ≡ some known
      → HasCounted c known.topic.id
          (of_type known.topic.id
            (valid_before fbs deadline (record { now = now; poll = poll } ∷ polls)))
          (loop warnings c (record { now = now; poll = poll } ∷ polls))
  unfolding observe_loop valid
  polled now timed_out polls ih warnings c known d s a f k =
      rw (observe_loop, d, filter_map) (ih warnings c known _ refl a f k)
  polled now (failed x) polls ih warnings c known d s a f k = absurd s
  polled now (received s) polls ih warnings c known d sound a f k =
      let t : TimedPoll = record { now = now; poll = received s } in
      elim (Result-cases (require_value_type fbs s.key s.encoding none)) [
        | is_panic q ↦ absurd (sound q)
        | is_err x q ↦
            let checked : require_value_type fbs s.key s.encoding c.known_type ≡ err x =
              rw k (require_expected fbs s.key s.encoding (some known) ∙ rw q refl) in
            rw (observe_loop, d, checked, filter_map, valid, q)
              (ih (warn warnings s.now s.key (display x)).0 c known _ refl a f k)
        | is_ok actual q ↦
            subst
              (λ vs.
                HasCounted c known.topic.id (of_type known.topic.id vs)
                  (loop warnings c (t ∷ polls)))
              (sym
                (valid-take t polls (record { sample = s; known = actual }) d (rw (valid, q) refl)))
              (accepted now s actual polls ih warnings c known _ d q refl a f k)
      ]

  counts_from : (polls : List TimedPoll) → CountsFrom polls
  unfolding observe_loop
  counts_from [] warnings c known vs e a f k = done c known vs e f k
  counts_from (t ∷ polls) warnings c known vs e (s, a) f k =
      subst
        (λ vs'.
          HasCounted c known.topic.id (of_type known.topic.id vs') (loop warnings c (t ∷ polls)))
        e
        (elim (Bool-cases (leb deadline t.now)) [
          | inl d ↦ rw (observe_loop, d, filter_map) (done c known [] refl f k)
          | inr d ↦ polled t.now t.poll polls (counts_from polls) warnings c known d s a f k
        ])

  -- The samples and the bytes that the loop counts from the start, and the number of the type of the first sample.
  abbrev pub Observes : List Valid → Result Counts → Type 0
  Observes [] r = r ≡ ok no_counts
  Observes (v ∷ vs) r = HasCounted no_counts v.known.topic.id (v ∷ vs) r

  first :
      (now : ℕ) (poll : Poll) (polls : List TimedPoll)
      → ((warnings : ContractWarningThrottle)
          → Observes (counted (valid_before fbs deadline polls)) (loop warnings no_counts polls))
      → (warnings : ContractWarningThrottle) → leb deadline now ≡ false
      → IsSound fbs poll
      → All (λ t. IsSound fbs t.poll) polls
      → Observes
          (counted (valid_before fbs deadline (record { now = now; poll = poll } ∷ polls)))
          (loop warnings no_counts (record { now = now; poll = poll } ∷ polls))
  unfolding observe_loop valid
  first now timed_out polls ih warnings d s a = rw (observe_loop, d, filter_map) (ih warnings)
  first now (failed x) polls ih warnings d s a = absurd s
  first now (received s) polls ih warnings d sound a =
      let t : TimedPoll = record { now = now; poll = received s } in
      elim (Result-cases (require_value_type fbs s.key s.encoding none)) [
        | is_panic q ↦ absurd (sound q)
        | is_err x q ↦
            rw (observe_loop, d, filter_map, valid, q)
              (ih (warn warnings s.now s.key (display x)).0)
        | is_ok actual q ↦
            let v : Valid = record { sample = s; known = actual } in
            let rest : HasCounted (add_sample s actual no_counts) actual.topic.id
                (of_type actual.topic.id (valid_before fbs deadline polls))
                (loop warnings (add_sample s actual no_counts) polls) =
              counts_from polls warnings (add_sample s actual no_counts) actual _ refl a
                (omega arith, omega arith) refl in
            subst (λ vs. Observes (counted vs) (loop warnings no_counts (t ∷ polls)))
              (sym (valid-take t polls v d (rw (valid, q) refl)))
              (rw (observe_loop, d, q)
                (with_one s actual no_counts actual.topic.id
                  (of_type actual.topic.id (valid_before fbs deadline polls)) _ rest))
      ]

  -- Where receiving does not fail and no value contract makes `from_value_encoding` panic, the loop ends with the
  -- number and the bytes, both modulo 2^64, of the samples before the deadline that have a valid contract of the type of the
  -- first such sample, and a type with its number; without any such sample it counts none and has no type.
  pub observe_loop-Observes :
      (polls : List TimedPoll) (warnings : ContractWarningThrottle)
      → All (λ t. IsSound fbs t.poll) polls
      → Observes (counted (valid_before fbs deadline polls)) (loop warnings no_counts polls)
  unfolding observe_loop
  observe_loop-Observes [] warnings a = refl
  observe_loop-Observes (t ∷ polls) warnings (s, a) = elim (Bool-cases (leb deadline t.now)) [
    | inl d ↦ rw (observe_loop, d, filter_map) refl
    | inr d ↦ first t.now t.poll polls (λ w. observe_loop-Observes polls w a) warnings d s a
  ]
