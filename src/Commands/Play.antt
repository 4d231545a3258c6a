-- ===== src/Commands/Play.antt =====
-- `bag_play` of rust/src/main.rs.
pub mod Replay
pub mod Long
pub mod Paced
use csyn.Common.{
  ℕ, ◌+◌, ◌-◌, ◌%◌, ◌^◌, List, [], ◌∷◌, ◌++◌, Bool, true, false, Option, none, some, if◌then◌else◌,
}
use csyn.Common.Text.{Text, codes}
use csyn.Common.Result.{Result, ok, err, panic, map_err, context, rate_not_positive}
use csyn.Synapse.{SynapseFbs}
use csyn.Types.Topic.{zenoh_encoding}
use csyn.Bag.Profile.{McapNames, Record, profile_metadata}
use csyn.Commands.Clock.{StdTime}
use csyn.Commands.Stream.{StreamMessage, is_filtered, decode_message}
use csyn.Commands.Trace.{Publication, Event, slept, put, printed, Trace, ◌>>=◌, ◌>>◌, lift, emit}

-- One pass of the loop: the message, the shutdown flag if it is loaded, and what `put` gives if it is called.
pub record Turn : Type 0 where
  pub message : Result StreamMessage
  pub shutdown : Bool
  pub published : Result (Unit {0})

-- What the session, the file system and the MCAP reader give to one run.
pub record PlayRun : Type 0 where
  pub session : Result (Unit {0})
  pub contents : Result (Unit {0})
  pub records : Result (List (Result Record))
  pub stream : Result (List Turn)

module _ {F : Type 0} (time : StdTime F) (fbs : SynapseFbs) (names : McapNames) (rate : F) where
  -- The pause between the message before and this one, scaled by the rate.
  unfoldable pub pause : Option ℕ → ℕ → Trace (Unit {0})
  pause none log_time = lift (ok tt)
  pause (some previous_ns) log_time = elim (time.scaled rate (log_time - previous_ns)) [
    | none ↦ lift panic
    | some scaled ↦ emit (slept scaled)
  ]

  unfoldable pub publish : Result (Unit {0}) → Publication → Trace (Unit {0})
  publish (ok _) p = emit (put p)
  publish (err e) p = lift (err (context (codes "failed to publish " ++ p.key) e))
  publish panic p = lift panic

  -- What is done with a message that is not passed over.
  unfoldable pub play_message : Option ℕ → Result (Unit {0}) → StreamMessage → Trace (Unit {0})
  play_message previous published message = do
    pause previous message.log_time
    decoded ← lift (decode_message fbs names message)
    publish published (record {
      key = message.channel.topic;
      payload = decoded.payload;
      encoding = zenoh_encoding fbs decoded.known;
    })

  module _ (topic_filter : Option Text) where
    -- The loop over the messages, which gives the number of those that were played.
    unfoldable pub play_loop : Option ℕ → ℕ → List Turn → Trace ℕ
    play_loop previous played [] = lift (ok played)
    play_loop previous played (t ∷ turns) =
        elim (map_err (context (codes "failed to read bag message")) t.message) [
          | err e ↦ lift (err e)
          | panic ↦ lift panic
          | ok message ↦ elim (is_filtered topic_filter message.channel.topic) [
            | true ↦ play_loop previous played turns
            | false ↦ elim t.shutdown [
              | true ↦ lift (ok played)
              | false ↦
                  play_message previous t.published message
                  >> play_loop (some message.log_time) ((played + 1) % 2 ^ 64) turns
            ]
          ]
        ]

    unfoldable pub bag_play : PlayRun → Trace ℕ
    bag_play run = if time.is_at_most_zero rate then lift (err rate_not_positive) else (do
      lift run.session
      lift run.contents
      lift (profile_metadata names run.records)
      turns ← lift (map_err (context (codes "failed to open bag")) run.stream)
      play_loop none 0 turns)
