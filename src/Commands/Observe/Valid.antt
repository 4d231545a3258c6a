-- ===== src/Commands/Observe/Valid.antt =====
-- The samples that `observe_topic` is meant to count.
use csyn.Common.{
  ℕ, ◌+◌, List, [], ◌∷◌, Option, none, some, ◌≡◌, ◌≢◌, refl, leb, ◌==◌, length, filter, filter_map,
  if◌then◌else◌,
}
use csyn.Common.Text.{Text}
use csyn.Common.Result.{ok, err, panic, ◌>>=◌, Result-cases, is_ok, is_err, is_panic}
use csyn.Synapse.{SynapseFbs}
use csyn.Types.Topic.{TopicType, from_value_encoding}
use csyn.Commands.Receive.{
  TimedPoll, Sample, Poll, timed_out, failed, received, check_expected, require_value_type,
}

pub record Valid : Type 0 where
  pub sample : Sample
  pub known : TopicType

abbrev pub before : ℕ → List TimedPoll → List TimedPoll
before deadline [] = []
before deadline (t ∷ polls) = if leb deadline t.now then [] else t ∷ before deadline polls

-- The samples of the type with the number `id`, and their bytes.
abbrev pub of_type : ℕ → List Valid → List Valid
of_type id vs = filter (λ v. id == v.known.topic.id) vs

abbrev pub total_bytes : List Valid → ℕ
total_bytes [] = 0
total_bytes (v ∷ vs) = length v.sample.payload + total_bytes vs

-- The samples that count: those of the type of the first one.
abbrev pub counted : List Valid → List Valid
counted [] = []
counted (v ∷ vs) = v ∷ of_type v.known.topic.id vs

module _ (fbs : SynapseFbs) where
  -- The sample of a poll, if it has a valid value contract.
  unfoldable pub valid : Poll → Option Valid
  valid timed_out = none
  valid (failed e) = none
  valid (received s) = elim (require_value_type fbs s.key s.encoding none) [
    | ok known ↦ some (record { sample = s; known = known })
    | err e ↦ none
    | panic ↦ none
  ]

  abbrev pub IsSound : Poll → Type 0
  IsSound timed_out = Unit
  IsSound (failed e) = ⊥
  IsSound (received s) = require_value_type fbs s.key s.encoding none ≢ panic

  -- An expected type is a further test behind the one without.
  pub require_expected :
      (key encoding : Text) (expected : Option TopicType)
      → require_value_type fbs key encoding expected
        ≡ require_value_type fbs key encoding none >>= check_expected fbs key expected
  unfolding require_value_type
  require_expected key encoding expected = elim (Result-cases (from_value_encoding fbs encoding)) [
    | is_ok known e ↦ rw (require_value_type, e) refl
    | is_err x e ↦ rw (require_value_type, e) refl
    | is_panic e ↦ rw (require_value_type, e) refl
  ]

  abbrev pub valid_before : ℕ → List TimedPoll → List Valid
  valid_before deadline polls = filter_map (λ t. valid t.poll) (before deadline polls)
