-- ===== src/Types/Topic/Payload.antt =====
-- Conversion of payloads between Zenoh and MCAP, and the publication time.
use csyn.Common.{
  ℕ, ◌^◌, ◌≤◌, ◌<◌, true, false, none, some, [], ◌++◌, ◌≡◌, refl, arith, ◌⊎◌, inl, inr, Bool-cases,
  length, get_range, take, Option-cases, ap,
}
use csyn.Common.Text.{Text}
use csyn.Common.Bytes.{Bytes, le_bytes, from_le_bytes, from_le_bytes-u64}
use csyn.Common.Result.{ok, Result-cases, is_ok, is_err, is_panic}
use csyn.Synapse.{SynapseFbs, ChecksSize, ChecksRoot}
use csyn.Types.Wrapper.{wrap_fixed_payload}
use csyn.Types.Wrapper.Shape.{get_range-append}
use csyn.Types.Wrapper.RoundTrip.{wrap_large, unwrap_of_wrap}
use csyn.Types.Topic.{
  TopicType, decode, fixed_timestamp, to_mcap_payload, mcap_to_zenoh_payload, mcap_publish_time_ns,
}
use native.Mathlib.Decide.{dec_le}

module _ (fbs : SynapseFbs) (known : TopicType) (payload : Bytes) where
  decode-inner :
      (text : Text)
      → decode fbs known payload ≡ ok text
      → fbs.decode_topic_debug known.topic payload ≡ ok text
  unfolding decode
  decode-inner text e = elim (Result-cases (fbs.decode_topic_debug known.topic payload)) [
    | is_ok a f ↦ ground (arith, f)
    | is_err x f ↦ ground (arith, f)
    | is_panic f ↦ ground (arith, f)
  ]

  -- What `to_mcap_payload` gives for a decodable payload: the payload itself for a root table, and its wrapped form for a
  -- fixed layout.
  pub to_mcap_payload-decodable :
      (text : Text)
      → decode fbs known payload ≡ ok text
      → ((known.topic.fixed_layout ≡ true)
          × (to_mcap_payload fbs known payload ≡ wrap_fixed_payload payload))
        ⊎ ((known.topic.fixed_layout ≡ false) × (to_mcap_payload fbs known payload ≡ ok payload))
  unfolding to_mcap_payload
  to_mcap_payload-decodable text e = elim (Bool-cases known.topic.fixed_layout) [
    | inl h ↦ inl (h, rw (e, h))
    | inr h ↦ inr (h, rw (e, h))
  ]

  pub to_mcap_payload-decodes :
      (stored : Bytes)
      → to_mcap_payload fbs known payload ≡ ok stored
      → (text : Text) × (decode fbs known payload ≡ ok text)
  unfolding to_mcap_payload
  to_mcap_payload-decodes stored e = elim (Result-cases (decode fbs known payload)) [
    | is_ok text f ↦ (text, f)
    | is_err x f ↦ ground (arith, f)
    | is_panic f ↦ ground (arith, f)
  ]

  -- A decoder that checks the sizes of fixed layouts: whatever is stored in a bag comes back unchanged.
  pub mcap_to_zenoh_payload-to_mcap_payload :
      (stored : Bytes)
      → ChecksSize fbs
      → to_mcap_payload fbs known payload ≡ ok stored
      → mcap_to_zenoh_payload fbs known stored ≡ ok payload
  unfolding mcap_to_zenoh_payload
  mcap_to_zenoh_payload-to_mcap_payload stored checks e =
      let (text, d) = to_mcap_payload-decodes stored e in
      elim (to_mcap_payload-decodable text d) [
        | inl (h, w) ↦
            let size : known.topic.payload_size ≡ some (length payload) =
              checks known.topic payload text (decode-inner text d) h in
            elim (dec_le (length payload) 65531) [
              | yes l ↦ rw (h, size) (unwrap_of_wrap payload stored l (cc (w, e)))
              | no l ↦
                  let large : 65531 < length payload = omega arith in
                  cc (w, e, wrap_large payload large)
            ]
        | inr (h, w) ↦ let same : payload ≡ stored = cc (w, e) in rw (← same) (rw d (rw h))
      ]

  -- The publication time of a decodable fixed-layout payload that begins with a 64-bit time is that time.
  pub mcap_publish_time_ns_fixed :
      (time log_time_ns : ℕ) (rest : Bytes) (text : Text)
      → known.topic.fixed_layout ≡ true
      → decode fbs known payload ≡ ok text
      → time < 2 ^ 64
      → payload ≡ le_bytes 8 time ++ rest
      → mcap_publish_time_ns fbs known payload log_time_ns ≡ ok time
  unfolding mcap_publish_time_ns
  mcap_publish_time_ns_fixed time log_time_ns rest text h d small e =
      let first : get_range 0 8 payload ≡ some (le_bytes 8 time) =
        rw e (get_range-append 0 8 [] (le_bytes 8 time) rest refl refl) in
      let stamp : fixed_timestamp payload ≡ some time =
        rw (first, fixed_timestamp) (ap (λ (n : ℕ). some n) (from_le_bytes-u64 time small)) in
      rw d (rw h (rw stamp))

  -- The publication time that a payload stands for.
  pub data IsPublishTime (log_time_ns time : ℕ) : Type 0 where
    stamped :
        known.topic.fixed_layout ≡ true
        → 8 ≤ length payload
        → time ≡ from_le_bytes (take 8 payload)
        → IsPublishTime log_time_ns time
    too_short :
        known.topic.fixed_layout ≡ true
        → length payload < 8
        → time ≡ log_time_ns
        → IsPublishTime log_time_ns time
    in_table :
        known.topic.fixed_layout ≡ false
        → fbs.table_get_u64 payload (from_le_bytes (take 4 payload)) 4 ≡ some time
        → IsPublishTime log_time_ns time
    not_in_table :
        known.topic.fixed_layout ≡ false
        → fbs.table_get_u64 payload (from_le_bytes (take 4 payload)) 4 ≡ none
        → time ≡ log_time_ns
        → IsPublishTime log_time_ns time

  -- Every decodable payload has a publication time: for a fixed layout the little-endian number in its first eight bytes, or the
  -- log time if there are fewer; for a root table the slot of its `timestamp_ns`, or the log time if
  -- that is absent. The root offset is there to be read, as the decoder checks it.
  pub mcap_publish_time_ns_total :
      (log_time_ns : ℕ) (text : Text)
      → ChecksRoot fbs
      → decode fbs known payload ≡ ok text
      → (time : ℕ) × (mcap_publish_time_ns fbs known payload log_time_ns ≡ ok time)
        × IsPublishTime log_time_ns time
  unfolding mcap_publish_time_ns
  mcap_publish_time_ns_total log_time_ns text checks d =
      elim (Bool-cases known.topic.fixed_layout) [
        | inl h ↦ elim (dec_le 8 (length payload)) [
          | yes l ↦ (from_le_bytes (take 8 payload), ground (arith, d, h), stamped h l refl)
          | no l ↦ (log_time_ns, ground (arith, d, h), too_short h (omega arith) refl)
        ]
        | inr h ↦
            let long : 4 ≤ length payload = checks known.topic payload text (decode-inner text d) in
            elim (Option-cases (fbs.table_get_u64 payload (from_le_bytes (take 4 payload)) 4)) [
              | inl o ↦ (log_time_ns, ground (arith, d, h, o), not_in_table h o refl)
              | inr (time, o) ↦ (time, ground (arith, d, h, o), in_table h o)
            ]
      ]
