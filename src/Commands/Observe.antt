-- ===== src/Commands/Observe.antt =====
-- `observe_topic` of rust/src/main.rs, and `topic_info`, `topic_hz` and `topic_bw`, which print what it gives. How a
-- quotient of floats is written is an input.
pub mod Valid
pub mod Counted
use csyn.Common.{
  ℕ, ◌+◌, ◌%◌, ◌^◌, List, [], ◌∷◌, ◌++◌, true, false, Option, none, some, leb, ltb, length,
  unwrap_or, if◌then◌else◌,
}
use csyn.Common.Text.{Text, codes, to_string}
use csyn.Common.Result.{Result, Error, ok, err, panic, ◌>>=◌, ◌>>◌, context}
use csyn.Synapse.{SynapseFbs}
use csyn.Types.Topic.{TopicType, wire_type, zenoh_encoding, subscribe_keyexpr}
use csyn.ContractWarning.{ContractWarningThrottle, default, warn}
use csyn.Commands.Clock.{StdTime, deadline_after}
use csyn.Commands.Receive.{Sample, TimedPoll, timed_out, failed, received, require_value_type}

pub record TopicStats : Type 0 where
  pub samples : ℕ
  pub bytes : ℕ
  pub elapsed : ℕ
  pub known_type : Option TopicType

-- The variables of the loop.
pub record Counts : Type 0 where
  pub samples : ℕ
  pub bytes : ℕ
  pub known_type : Option TopicType

abbrev pub no_counts : Counts
no_counts = record { samples = 0; bytes = 0; known_type = none }

abbrev pub add_sample : Sample → TopicType → Counts → Counts
add_sample s known c = record {
  samples = (c.samples + 1) % 2 ^ 64;
  bytes = (c.bytes + length s.payload) % 2 ^ 64;
  known_type = some known;
}

-- What the session and the clock give to one run.
pub record ObserveRun : Type 0 where
  pub subscribe : Text → Result (Unit {0})
  pub started : ℕ
  pub polls : List TimedPoll
  pub elapsed : ℕ

module _ (fbs : SynapseFbs) (display : Error → Text) where
  unfoldable pub observe_loop :
      (deadline : ℕ) → ContractWarningThrottle → Counts → List TimedPoll → Result Counts
  observe_loop deadline warnings c [] = ok c
  observe_loop deadline warnings c (t ∷ polls) = elim (leb deadline t.now) [
    | true ↦ ok c
    | false ↦ elim t.poll [
      | timed_out ↦ observe_loop deadline warnings c polls
      | failed e ↦ err (context (codes "failed to receive sample") e)
      | received s ↦ elim (require_value_type fbs s.key s.encoding c.known_type) [
        | panic ↦ panic
        | err e ↦ observe_loop deadline (warn warnings s.now s.key (display e)).0 c polls
        | ok known ↦ observe_loop deadline warnings (add_sample s known c) polls
      ]
    ]
  ]

  unfoldable pub observe_topic :
      {F : Type 0} → StdTime F → ObserveRun → (topic : Text) → (duration : F) → Result TopicStats
  observe_topic time run topic duration = do
    keyexpr ← subscribe_keyexpr fbs topic
    run.subscribe keyexpr
    deadline ← deadline_after time run.started duration
    c ← observe_loop deadline default no_counts run.polls
    ok (record {
      samples = c.samples;
      bytes = c.bytes;
      elapsed = run.elapsed;
      known_type = c.known_type;
    })

-- How the program writes numbers that it divides: `{:.1}` and `{:.3}` of a quotient, and seconds.
pub record Format : Type 0 where
  pub mean_size : (bytes samples : ℕ) → Text
  pub seconds : (elapsed : ℕ) → Text
  pub rate : (samples elapsed : ℕ) → Text
  pub bandwidth : (bytes elapsed : ℕ) → Text

abbrev pub line_of : Text → Text → Text
line_of label value = label ++ (codes ": " ++ value)

module _ (fbs : SynapseFbs) (version : Text) (format : Format) where
  abbrev pub type_lines : Option TopicType → List Text
  type_lines none = codes "Type: not observed" ∷ []
  type_lines (some known) =
      line_of (codes "Type") (unwrap_or (wire_type known) known.topic.name)
      ∷ (line_of (codes "Schema")
            (known.topic.schema_file ++ (codes " (synapse_fbs " ++ (version ++ codes ")")))
          ∷ (line_of (codes "Encoding") (zenoh_encoding fbs known) ∷ []))

  -- The lines of `topic_info`, `topic_hz` and `topic_bw`.
  unfoldable pub topic_info : Text → TopicStats → List Text
  topic_info topic stats =
      line_of (codes "Topic") topic
      ∷ (type_lines stats.known_type
          ++ (line_of (codes "Samples") (to_string stats.samples)
              ∷ (line_of (codes "Bytes") (to_string stats.bytes)
                  ∷ (if ltb 0 stats.samples
                      then line_of (codes "Mean size")
                          (format.mean_size stats.bytes stats.samples ++ codes " B")
                        ∷ []
                      else []))))

  unfoldable pub topic_hz : Text → TopicStats → List Text
  topic_hz topic stats =
      line_of (codes "Topic") topic
      ∷ (line_of (codes "Samples") (to_string stats.samples)
          ∷ (line_of (codes "Window") (format.seconds stats.elapsed ++ codes " s")
              ∷ (if ltb 0 stats.elapsed
                  then line_of (codes "Rate")
                      (format.rate stats.samples stats.elapsed ++ codes " Hz")
                    ∷ []
                  else [])))

  unfoldable pub topic_bw : Text → TopicStats → List Text
  topic_bw topic stats =
      line_of (codes "Topic") topic
      ∷ (line_of (codes "Samples") (to_string stats.samples)
          ∷ (line_of (codes "Bytes") (to_string stats.bytes)
              ∷ (line_of (codes "Window") (format.seconds stats.elapsed ++ codes " s")
                  ∷ (if ltb 0 stats.elapsed
                      then line_of (codes "Bandwidth")
                          (format.bandwidth stats.bytes stats.elapsed ++ codes " B/s")
                        ∷ []
                      else []))))
