-- ===== src/Bag/Channel/Accepts.antt =====
-- Which channels of a bag are accepted.
use csyn.Common.{◌≡◌, ◌↔◌, arith, Option, none, some, true, Bool-cases, Option-cases, inl, inr}
use csyn.Common.Text.{Text, to_string}
use csyn.Common.TextOrder.{list_eq_iff}
use csyn.Common.Map.{get}
use mathlib.Core.Path.{subst}
use csyn.Common.Result.{ok, Result-cases, is_ok, is_err, is_panic}
use csyn.Synapse.{SynapseFbs}
use csyn.Types.Topic.{TopicType, find}
use csyn.Bag.Profile.{McapNames}
use csyn.Bag.Channel.{Channel, Schema, is_value, is_compatible, channel_type}

module _ (fbs : SynapseFbs) (names : McapNames) where
  -- The contract of a channel with a topic of this build.
  pub record IsCompatible (channel : Channel) (known : TopicType) : Type 0 where
    pub schema : Schema
    pub has_schema : channel.schema ≡ some schema
    pub resolves : find fbs schema.name ≡ ok (some known)
    pub same_name : schema.name ≡ known.topic.mcap_schema_name
    pub same_encoding : schema.encoding ≡ names.schema_encoding
    pub same_bfbs : schema.contents ≡ known.schema.bfbs
    pub same_message_encoding : channel.message_encoding ≡ names.message_encoding
    pub same_id : get names.topic_id_key channel.metadata ≡ some (to_string known.topic.id)

  is_value_iff : (value : Text) (o : Option Text) → (is_value value o ≡ true) ↔ (o ≡ some value)
  is_value_iff value none = (λ h. cc, λ h. cc)
  is_value_iff value (some v) =
      (λ h. ground (arith, list_eq_iff v value), λ h. ground (arith, list_eq_iff v value))

  compatible :
      (channel : Channel) (schema : Schema) (known : TopicType)
      → channel.schema ≡ some schema
      → find fbs schema.name ≡ ok (some known)
      → is_compatible fbs names channel schema known ≡ true
      → IsCompatible channel known
  unfolding is_compatible
  compatible channel schema known h f c = record {
    schema = schema;
    has_schema = h;
    resolves = f;
    same_name = ground (arith, list_eq_iff schema.name known.topic.mcap_schema_name);
    same_encoding = ground (arith, list_eq_iff schema.encoding names.schema_encoding);
    same_bfbs = ground (arith, list_eq_iff schema.contents known.schema.bfbs);
    same_message_encoding =
        ground (arith, list_eq_iff channel.message_encoding names.message_encoding);
    same_id =
        ground (
          arith,
          is_value_iff (to_string known.topic.id) (get names.topic_id_key channel.metadata),
        );
  }

  channel_type-IsCompatible :
      (channel : Channel) (known : TopicType)
      → channel_type fbs names channel ≡ ok known
      → IsCompatible channel known
  unfolding channel_type
  channel_type-IsCompatible channel known e = elim (Option-cases channel.schema) [
    | inl h ↦ ground (arith, h)
    | inr (schema, h) ↦ elim (Result-cases (find fbs schema.name)) [
      | is_ok none f ↦ ground (arith, h, f)
      | is_err x f ↦ ground (arith, h, f)
      | is_panic f ↦ ground (arith, h, f)
      | is_ok (some k) f ↦ elim (Bool-cases (is_compatible fbs names channel schema k)) [
        | inl c ↦
            let same : k ≡ known = ground (arith, h, f, c) in
            subst (IsCompatible channel) same (compatible channel schema k h f c)
        | inr c ↦ ground (arith, h, f, c)
      ]
    ]
  ]

  IsCompatible-channel_type :
      (channel : Channel) (known : TopicType)
      → IsCompatible channel known
      → channel_type fbs names channel ≡ ok known
  unfolding channel_type is_compatible
  IsCompatible-channel_type channel known h =
      rw (h.has_schema, h.resolves)
        (ground (
          arith,
          list_eq_iff h.schema.name known.topic.mcap_schema_name,
          list_eq_iff h.schema.encoding names.schema_encoding,
          list_eq_iff h.schema.contents known.schema.bfbs,
          list_eq_iff channel.message_encoding names.message_encoding,
          is_value_iff (to_string known.topic.id) (get names.topic_id_key channel.metadata),
          h.same_name,
          h.same_encoding,
          h.same_bfbs,
          h.same_message_encoding,
          h.same_id,
        ))

  -- A channel is given the type `known` exactly if it has a schema whose name resolves to that type and is its MCAP
  -- schema name, the schema and the message have the encodings of the profile, the schema's bytes are the
  -- ones embedded in this build, and the channel's metadata hold the topic's number.
  pub channel_type_iff :
      (channel : Channel) (known : TopicType)
      → (channel_type fbs names channel ≡ ok known) ↔ IsCompatible channel known
  channel_type_iff channel known =
      (channel_type-IsCompatible channel known, IsCompatible-channel_type channel known)
