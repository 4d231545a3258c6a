-- ===== src/Bag/Channel.antt =====
-- `channel_type` and `unix_now_ns` of rust/src/bag.rs.
pub mod Accepts
use csyn.Common.{
  ℕ, ◌-◌, ◌^◌, List, [], ◌∷◌, Option, none, some, Bool, true, false, ◌&&◌, if◌then◌else◌, min,
}
use csyn.Common.Text.{Text, list_eq, to_string}
use csyn.Common.Bytes.{Bytes}
use csyn.Common.Map.{BTreeMap, get}
use csyn.Common.Result.{
  Result, ok, err, panic, ◌>>=◌, ok_or, no_schema, unknown_mcap_type, incompatible_contract,
  before_epoch,
}
use csyn.Synapse.{SynapseFbs}
use csyn.Types.Topic.{mcap_schema, TopicType, find}
use csyn.Bag.Profile.{McapNames}

-- `mcap::Schema`
pub record Schema : Type 0 where
  pub id : ℕ
  pub name : Text
  pub encoding : Text
  pub contents : Bytes

-- `mcap::Channel`
pub record Channel : Type 0 where
  pub id : ℕ
  pub topic : Text
  pub schema : Option Schema
  pub message_encoding : Text
  pub metadata : BTreeMap Text

-- `metadata.get(key) == Some(&value)`
abbrev pub is_value : Text → Option Text → Bool
is_value value none = false
is_value value (some v) = list_eq v value

module _ (fbs : SynapseFbs) (names : McapNames) where
  -- None of the five tests of the contract fails.
  unfoldable pub is_compatible : Channel → Schema → TopicType → Bool
  is_compatible channel schema known =
      list_eq schema.name known.topic.mcap_schema_name
      && (list_eq schema.encoding names.schema_encoding
          && (list_eq schema.contents (mcap_schema known).bfbs
              && (list_eq channel.message_encoding names.message_encoding
                  && is_value (to_string known.topic.id)
                      (get names.topic_id_key channel.metadata))))

  unfoldable pub channel_type : Channel → Result TopicType
  channel_type channel = do
    schema ← ok_or (no_schema channel.topic) channel.schema
    found ← find fbs schema.name
    known ← ok_or (unknown_mcap_type schema.name) found
    if is_compatible channel schema known
        then ok known
        else err (incompatible_contract channel.topic)

-- `unix_now_ns`; `now` is the time since the epoch, if the clock is not before it.
unfoldable pub unix_now_ns : Option ℕ → Result ℕ
unix_now_ns none = err before_epoch
unix_now_ns (some now) = ok (min now (2 ^ 64 - 1))
