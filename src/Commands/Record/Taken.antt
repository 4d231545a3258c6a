-- ===== src/Commands/Record/Taken.antt =====
-- What `bag_record` is meant to record: the accepted samples of the rounds before the deadline, up to the limit, each as
-- one message.
use csyn.Common.{ℕ, ◌-◌, List, [], ◌∷◌, Option, none, some, take, filter_map, if◌then◌else◌}
use csyn.Common.Result.{Result, ok, err, panic, ◌>>=◌}
use csyn.Synapse.{SynapseFbs}
use csyn.Types.Topic.{TopicType, to_mcap_payload, mcap_publish_time_ns}
use csyn.Bag.Channel.{unix_now_ns}
use csyn.Bag.Writer.Steps.{Message}
use csyn.Commands.Receive.{Sample, timed_out, failed, received, require_value_type}
use csyn.Commands.Record.Loop.{Round, is_reached}

-- An accepted sample, its type, and the clock at which it was accepted.
pub record Taken : Type 0 where
  pub sample : Sample
  pub known : TopicType
  pub clock : Option ℕ

-- The rounds before the deadline.
abbrev pub before : Option ℕ → List Round → List Round
before deadline [] = []
before deadline (r ∷ rounds) = if is_reached deadline r.now then [] else r ∷ before deadline rounds

-- At most as many as are left of the limit.
abbrev pub up_to : Option ℕ → ℕ → List Taken → List Taken
up_to none recorded ts = ts
up_to (some limit) recorded ts = take (limit - recorded) ts

module _ (fbs : SynapseFbs) (forced_type : Option TopicType) where
  unfoldable pub accept : Round → Option Taken
  accept r = elim r.poll [
    | timed_out ↦ none
    | failed e ↦ none
    | received s ↦ elim (require_value_type fbs s.key s.encoding forced_type) [
      | ok known ↦ some (record { sample = s; known = known; clock = r.clock })
      | err e ↦ none
      | panic ↦ none
    ]
  ]

  abbrev pub taken : (deadline max_messages : Option ℕ) → ℕ → List Round → List Taken
  taken deadline max_messages recorded rounds =
      up_to max_messages recorded (filter_map accept (before deadline rounds))

-- The message that a sample becomes.
unfoldable pub message_for : SynapseFbs → Taken → Result Message
message_for fbs t = do
  log ← unix_now_ns t.clock
  time ← mcap_publish_time_ns fbs t.known t.sample.payload log
  stored ← to_mcap_payload fbs t.known t.sample.payload
  ok (record {
    key = t.sample.key;
    topic = t.known.topic;
    log_time_ns = log;
    publish_time_ns = time;
    contents = stored;
  })

unfoldable pub messages_for : SynapseFbs → List Taken → Result (List Message)
messages_for fbs [] = ok []
messages_for fbs (t ∷ ts) = do
  message ← message_for fbs t
  messages ← messages_for fbs ts
  ok (message ∷ messages)
