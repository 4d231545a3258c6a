-- ===== src/Types/Topic.antt =====
-- `TopicType` of rust/src/types.rs. A zenoh `Encoding` enters as its text, that which `to_string`
-- gives and `Encoding::from` takes.
pub mod Lookup
pub mod Contract
pub mod Payload
pub mod Keys
pub mod Matched
use csyn.Common.{
  ℕ, ◌+◌, ◌-◌, ◌%◌, ◌^◌, Bool, true, false, ◌&&◌, ◌||◌, Option, none, some, List, [], ◌∷◌, ◌++◌,
  get_range, if◌then◌else◌, unwrap_or, ◌≡◌,
}
use csyn.Common.Text.{Text, codes, list_eq, eq_ignore_ascii_case, find_from, contains}
use csyn.Common.Bytes.{Bytes, from_le_bytes}
use csyn.Common.Result.{
  Result, ok, err, panic, ◌>>=◌, ◌>>◌, ok_or, expect, map_err, context, unknown_topic,
}
use csyn.Synapse.{TopicInfo, EmbeddedSchema, SynapseFbs}
use csyn.Types.Wrapper.{wrap_fixed_payload, unwrap_fixed_payload}

pub record TopicType : Type 0 where
  pub topic : TopicInfo
  pub schema : EmbeddedSchema

-- The first test of `find`: catalog name, canonical key or root table.
unfoldable pub is_named : Text → TopicInfo → Bool
is_named name topic =
    eq_ignore_ascii_case topic.name name
    || (list_eq topic.key name || eq_ignore_ascii_case topic.root_table name)

unfoldable pub find_named : Text → List TopicInfo → Option TopicInfo
find_named name [] = none
find_named name (topic ∷ topics) =
    if is_named name topic then some topic else find_named name topics

-- `schema_hash`
abbrev pub schema_hash : TopicType → Text
schema_hash known = known.topic.schema_hash

-- `mcap_schema`
abbrev pub mcap_schema : TopicType → EmbeddedSchema
mcap_schema known = known.schema

-- `wire_type`
abbrev pub wire_type : TopicType → Option Text
wire_type known = some known.topic.wire_type

abbrev pub is_some_and {ℓ} : {A : Type ℓ} → (A → Bool) → Option A → Bool
is_some_and p none = false
is_some_and p (some a) = p a

-- The last test of `find`: wire type or MCAP schema name.
unfoldable pub is_wired : Text → TopicType → Bool
is_wired name known =
    is_some_and (λ wire. eq_ignore_ascii_case wire name) (wire_type known)
    || eq_ignore_ascii_case known.topic.mcap_schema_name name

-- `or_else` on an optional topic
abbrev pub or_else :
    Result (Option TopicType) → Result (Option TopicType) → Result (Option TopicType)
or_else (ok none) other = other
or_else (ok (some known)) other = ok (some known)
or_else (err e) other = err e
or_else panic other = panic

-- The part of the encoding from "application/x-" on, or all of it.
unfoldable pub canonical : Text → Text
canonical received = elim (find_from (codes "application/x-") received) [
  | none ↦ received
  | some contract ↦ contract
]

-- `payload.get(0..8).map(u64::from_le_bytes)`
abbrev pub fixed_timestamp : Bytes → Option ℕ
fixed_timestamp payload = elim (get_range 0 8 payload) [
  | none ↦ none
  | some bytes ↦ some (from_le_bytes bytes)
]

module _ (fbs : SynapseFbs) where
  -- `from_topic`; the `expect` panics on a topic with no embedded schema.
  unfoldable pub from_topic : TopicInfo → Result TopicType
  from_topic topic = do
    schema ← expect (fbs.schema_by_name topic.schema_file)
    ok (record { topic = topic; schema = schema })

  -- `option.map(Self::from_topic)`
  abbrev pub map_topic : Option TopicInfo → Result (Option TopicType)
  map_topic none = ok none
  map_topic (some topic) = do known ← from_topic topic; ok (some known)

  -- `infer`
  unfoldable pub infer : Text → Result (Option TopicType)
  infer keyexpr = map_topic (fbs.topic_by_key keyexpr)

  -- `Self::all().find(…)`: each topic is paired with its schema until one passes the test.
  unfoldable pub find_wired : Text → List TopicInfo → Result (Option TopicType)
  find_wired name [] = ok none
  find_wired name (topic ∷ topics) =
      let rest = find_wired name topics in
      do known ← from_topic topic; if is_wired name known then ok (some known) else rest

  -- `find`
  unfoldable pub find : Text → Result (Option TopicType)
  find name =
      or_else (or_else (map_topic (find_named name fbs.topics)) (infer name))
        (find_wired name fbs.topics)

  -- `require`
  unfoldable pub require : Text → Result TopicType
  require name = do found ← find name; ok_or (unknown_topic name) found

  -- `from_value_encoding`
  unfoldable pub from_value_encoding : Text → Result TopicType
  from_value_encoding received = do
    topic ← fbs.topic_for_encoding (canonical received)
    from_topic topic

  -- `zenoh_encoding`, as the text that a sample carries and the commands print.
  unfoldable pub zenoh_encoding : TopicType → Text
  zenoh_encoding known = fbs.encoding_text (fbs.encoding_for_topic known.topic)

  -- `decode`
  unfoldable pub decode : TopicType → Bytes → Result Text
  decode known payload =
      map_err (context known.topic.name) (fbs.decode_topic_debug known.topic payload)

  -- `to_mcap_payload`
  unfoldable pub to_mcap_payload : TopicType → Bytes → Result Bytes
  to_mcap_payload known payload = do
    decode known payload
    if known.topic.fixed_layout then wrap_fixed_payload payload else ok payload

  -- The `timestamp_ns` slot of the root table; a payload below four bytes panics.
  abbrev pub table_timestamp : Bytes → Result (Option ℕ)
  table_timestamp payload = do
    root ← expect (get_range 0 4 payload)
    ok (fbs.table_get_u64 payload (from_le_bytes root) 4)

  -- `mcap_publish_time_ns`
  unfoldable pub mcap_publish_time_ns : TopicType → Bytes → ℕ → Result ℕ
  mcap_publish_time_ns known payload log_time_ns = do
    decode known payload
    timestamp_ns ←
        if known.topic.fixed_layout then ok (fixed_timestamp payload) else table_timestamp payload
    ok (unwrap_or timestamp_ns log_time_ns)

  -- `mcap_to_zenoh_payload`
  unfoldable pub mcap_to_zenoh_payload : TopicType → Bytes → Result Bytes
  mcap_to_zenoh_payload known payload =
      if known.topic.fixed_layout
      then (do expected ← expect known.topic.payload_size; unwrap_fixed_payload payload expected)
      else (do decode known payload; ok payload)

  -- `subscribe_keyexpr`
  unfoldable pub subscribe_keyexpr : Text → Result Text
  subscribe_keyexpr arg = if contains arg b'/' then ok arg else (do
    found ← find arg
    ok (elim found [ none ↦ arg | some known ↦ codes "**/" ++ (known.topic.key ++ codes "/**") ]))

  -- `publish_key`
  unfoldable pub publish_key : Text → Result Text
  publish_key arg =
      if contains arg b'/'
      then ok arg
      else (do found ← find arg; ok (elim found [ none ↦ arg | some known ↦ known.topic.key ]))
