-- ===== src/Synapse.antt =====
-- What the program takes from the `synapse_fbs` crate and from `flatbuffers`: the topic catalog, the embedded
-- schemas, the value contracts and the generated decoder. They are not part of this repository, and
-- enter the model as one record of operations. The records below them say what the program relies on.
use csyn.Common.{ℕ, Bool, true, Option, some, List, length, All, ◌≡◌, ◌≤◌}
use csyn.Common.Text.{Text}
use csyn.Common.Bytes.{Bytes}
use csyn.Common.Result.{Result, ok}

-- `topic_catalog::TopicInfo`, by the fields that the program reads.
pub record TopicInfo : Type 0 where
  pub id : ℕ
  pub name : Text
  pub key : Text
  pub root_table : Text
  pub wire_type : Text
  pub schema_file : Text
  pub mcap_schema_name : Text
  pub schema_hash : Text
  pub encoding : Text
  pub description : Text
  pub fixed_layout : Bool
  pub payload_size : Option ℕ

-- `schemas::EmbeddedSchema`
pub record EmbeddedSchema : Type 0 where
  pub file : Text
  pub root_type : Option Text
  pub file_identifier : Option Text
  pub bfbs : Bytes
  pub fbs : Text

pub record SynapseFbs : Type 0 where
  -- `topic_catalog::TOPICS` and `topic_by_key`
  pub topics : List TopicInfo
  pub topic_by_key : Text → Option TopicInfo
  -- `schemas::schema_by_name`
  pub schema_by_name : Text → Option EmbeddedSchema
  -- `value_contract::topic_for_encoding` and `encoding_for_topic`
  pub topic_for_encoding : Text → Result TopicInfo
  pub encoding_for_topic : TopicInfo → Text
  -- Of the `zenoh` crate: `to_string` of `Encoding::from` of a text.
  pub encoding_text : Text → Text
  -- `topic_decode::decode_topic_debug`
  pub decode_topic_debug : TopicInfo → Bytes → Result Text
  -- `flatbuffers::Table::new(payload, root).get::<u64>(slot, None)`
  pub table_get_u64 : Bytes → ℕ → ℕ → Option ℕ

-- "catalog topics reference an embedded schema"
abbrev pub HasSchema : SynapseFbs → TopicInfo → Type 0
HasSchema fbs topic =
    (schema : EmbeddedSchema) × (fbs.schema_by_name topic.schema_file ≡ some schema)

-- The catalog is closed: what a lookup by key gives has a schema, as every listed topic has.
pub record IsClosed (fbs : SynapseFbs) : Type 0 where
  pub listed : All (HasSchema fbs) fbs.topics
  pub by_key :
      (key : Text) (topic : TopicInfo) → fbs.topic_by_key key ≡ some topic → HasSchema fbs topic
  pub by_encoding :
      (encoding : Text) (topic : TopicInfo)
      → fbs.topic_for_encoding encoding ≡ ok topic
      → HasSchema fbs topic

-- The decoder accepts a fixed-layout payload only at the size of the catalog.
abbrev pub ChecksSize : SynapseFbs → Type 0
ChecksSize fbs =
    (topic : TopicInfo) (payload : Bytes) (text : Text)
    → fbs.decode_topic_debug topic payload ≡ ok text
    → topic.fixed_layout ≡ true
    → topic.payload_size ≡ some (length payload)

-- The decoder verifies the root offset of a table, and so accepts no payload below four bytes.
abbrev pub ChecksRoot : SynapseFbs → Type 0
ChecksRoot fbs =
    (topic : TopicInfo) (payload : Bytes) (text : Text)
    → fbs.decode_topic_debug topic payload ≡ ok text
    → 4 ≤ length payload
