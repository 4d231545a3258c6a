-- ===== src/Commands/Stream.antt =====
-- The messages of a bag as `bag_play` and `bag_export` of rust/src/main.rs read them. `mcap::MessageStream` is an input: the
-- list of what it gives, in which each message may be a read error.
use csyn.Common.{ℕ, ◌++◌, Bool, not, false, Option, none, some}
use csyn.Common.Text.{Text, codes, list_eq}
use csyn.Common.Bytes.{Bytes}
use csyn.Common.Result.{Result, ok, ◌>>=◌, map_err, context}
use csyn.Synapse.{SynapseFbs}
use csyn.Types.Topic.{TopicType, decode, mcap_to_zenoh_payload}
use csyn.Bag.Profile.{McapNames}
use csyn.Bag.Channel.{Channel, channel_type}

-- `mcap::Message`, by the fields that are read; `contents` is its field `data`.
pub record StreamMessage : Type 0 where
  pub channel : Channel
  pub log_time : ℕ
  pub contents : Bytes

-- `topic_filter.as_deref().is_some_and(|filter| filter != message.channel.topic)`
abbrev pub is_filtered : Option Text → Text → Bool
is_filtered none topic = false
is_filtered (some filter) topic = not (list_eq filter topic)

pub record Decoded : Type 0 where
  pub known : TopicType
  pub payload : Bytes
  pub text : Text

-- The type, the payload in its Zenoh form and the decoded text of a message.
unfoldable pub decode_message : SynapseFbs → McapNames → StreamMessage → Result Decoded
decode_message fbs names message = do
  known ← channel_type fbs names message.channel
  payload ←
      map_err
        (context (
          codes "MCAP payload on "
          ++ (message.channel.topic ++ (codes " does not match " ++ known.topic.name))))
        (mcap_to_zenoh_payload fbs known message.contents)
  text ← decode fbs known payload
  ok (record { known = known; payload = payload; text = text })
