-- ===== src/Tests/Catalog.antt =====
-- A catalog of two topics, one of fixed layout and one with a root table, for the tests.
use csyn.Common.{
  ℕ, Bool, true, false, ◌&&◌, [], ◌∷◌, ◌++◌, Option, none, some, length, leb, ◌==◌, if◌then◌else◌,
  ◌≡◌, arith, refl,
}
use csyn.Common.Text.{Text, codes, list_eq}
use csyn.Common.Bytes.{Bytes}
use csyn.Common.Result.{Result, ok, err, external}
use csyn.Synapse.{
  TopicInfo, EmbeddedSchema, SynapseFbs, IsClosed, ChecksSize, ChecksRoot, HasSchema,
}
use csyn.Types.Topic.{TopicType}

abbrev pub attitude : TopicInfo
attitude = record {
  id = 7;
  name = codes "AttitudeEstimate";
  key = codes "att";
  root_table = codes "synapse.topic.AttitudeEstimate";
  wire_type = codes "synapse.topic.AttitudeEstimateData";
  schema_file = codes "att.fbs";
  mcap_schema_name = codes "synapse.topic.AttitudeEstimate";
  schema_hash = codes "00";
  encoding = codes "struct";
  description = codes "";
  fixed_layout = true;
  payload_size = some 12;
}

abbrev pub text_status : TopicInfo
text_status = record {
  id = 31;
  name = codes "TextStatus";
  key = codes "text";
  root_table = codes "synapse.topic.TextStatus";
  wire_type = codes "synapse.topic.TextStatus";
  schema_file = codes "text.fbs";
  mcap_schema_name = codes "synapse.topic.TextStatus";
  schema_hash = codes "01";
  encoding = codes "table";
  description = codes "";
  fixed_layout = false;
  payload_size = none;
}

abbrev pub schema : EmbeddedSchema
schema = record {
  file = codes "att.fbs";
  root_type = none;
  file_identifier = none;
  bfbs = 1 ∷ 2 ∷ 3 ∷ [];
  fbs = codes "table";
}

abbrev pub encode : TopicInfo → Text
encode topic = codes "application/x-synapse;type=" ++ topic.wire_type

abbrev pub by_key : Text → Option TopicInfo
by_key key =
    if list_eq key (codes "cub1/att")
    then some attitude
    else if list_eq key (codes "cub1/text")
    then some text_status
    else none

abbrev pub by_encoding : Text → Result TopicInfo
by_encoding encoding =
    if list_eq encoding (encode attitude)
    then ok attitude
    else if list_eq encoding (encode text_status)
    then ok text_status
    else err (external [])

abbrev pub has_size : Option ℕ → Bytes → Bool
has_size none payload = false
has_size (some n) payload = length payload == n

abbrev pub accepts : TopicInfo → Bytes → Bool
accepts topic payload =
    leb 4 (length payload)
    && (if topic.fixed_layout then has_size topic.payload_size payload else true)

abbrev pub decode_any : TopicInfo → Bytes → Result Text
decode_any topic payload = if accepts topic payload then ok topic.name else err (external [])

abbrev pub catalog : SynapseFbs
catalog = record {
  topics = attitude ∷ text_status ∷ [];
  topic_by_key = by_key;
  schema_by_name = λ file. some schema;
  topic_for_encoding = by_encoding;
  encoding_for_topic = encode;
  encoding_text = λ text. codes "zenoh/bytes;" ++ text;
  decode_topic_debug = decode_any;
  table_get_u64 = λ payload root slot. some 99;
}

abbrev pub known_attitude : TopicType
known_attitude = record { topic = attitude; schema = schema }

abbrev pub known_text : TopicType
known_text = record { topic = text_status; schema = schema }

has_schema : (topic : TopicInfo) → HasSchema catalog topic
has_schema topic = (schema, refl)

pub catalog-IsClosed : IsClosed catalog
catalog-IsClosed = record {
  listed = (has_schema attitude, (has_schema text_status, tt));
  by_key = λ key topic h. has_schema topic;
  by_encoding = λ encoding topic h. has_schema topic;
}

has_size_sound :
    (size : Option ℕ) (payload : Bytes)
    → has_size size payload ≡ true
    → size ≡ some (length payload)
has_size_sound none payload h = cc
has_size_sound (some n) payload h = ground arith

pub catalog-ChecksSize : ChecksSize catalog
catalog-ChecksSize topic payload text e fixed =
    ground (arith, has_size_sound topic.payload_size payload)

pub catalog-ChecksRoot : ChecksRoot catalog
catalog-ChecksRoot topic payload text e = ground arith
