-- ===== src/Commands/Print.antt =====
-- `print_sample` and `hex_dump` of rust/src/main.rs. Base64, the JSON writer and how an error is written are inputs.
pub mod Hex
use csyn.Common.{ℕ, ◌+◌, ◌/◌, ◌%◌, List, [], ◌∷◌, ◌++◌, Option, none, some, ltb, map, if◌then◌else◌}
use csyn.Common.Text.{Text, codes, join}
use csyn.Common.Bytes.{Bytes}
use csyn.Common.Result.{Result, Error, ok, err, panic}
use csyn.Synapse.{SynapseFbs}
use csyn.Types.Topic.{TopicType, wire_type, decode}
use csyn.Commands.Trace.{Event, printed, Trace, ◌>>=◌, ◌>>◌, lift, emit}

-- `{:x}` of a number below 16.
abbrev pub hex_digit : ℕ → ℕ
hex_digit n = if ltb n 10 then 48 + n else 87 + n

-- `{byte:02x}`
abbrev pub hex_byte : ℕ → Text
hex_byte byte = hex_digit (byte / 16) ∷ (hex_digit (byte % 16) ∷ [])

unfoldable pub hex_dump : Bytes → Text
hex_dump bytes = join (codes " ") (map hex_byte bytes)

pub data TopicOutput : Type 0 where
  debug : TopicOutput
  json : TopicOutput

pub record EchoJson : Type 0 where
  pub topic : Text
  pub wire_type : Option Text
  pub payload_base64 : Text
  pub decoded : Option Text

-- `BASE64.encode`, `serde_json::to_string`, and `Display` of an error.
pub record EchoEncoders : Type 0 where
  pub base64 : Bytes → Text
  pub to_json : EchoJson → Result Text
  pub display : Error → Text

abbrev and_then_wire : Option TopicType → Option Text
and_then_wire none = none
and_then_wire (some known) = wire_type known

-- `decode(payload).ok()`, where a panic stays one.
abbrev ok_of : Result Text → Result (Option Text)
ok_of (ok text) = ok (some text)
ok_of (err e) = ok none
ok_of panic = panic

module _ (fbs : SynapseFbs) (enc : EchoEncoders) where
  abbrev decoded_line : Result Text → Result Text
  decoded_line (ok text) = ok text
  decoded_line (err e) = ok (codes "decode_error: " ++ enc.display e)
  decoded_line panic = panic

  abbrev decode_ok : Option TopicType → Bytes → Result (Option Text)
  decode_ok none payload = ok none
  decode_ok (some known) payload = ok_of (decode fbs known payload)

  abbrev name_or : Option Text → TopicType → Text
  name_or none known = known.topic.name
  name_or (some wire) known = wire

  unfoldable pub print_sample : Text → Option TopicType → Bytes → TopicOutput → Trace (Unit {0})
  print_sample topic (some known) payload debug = do
    emit (printed (codes "topic: " ++ topic))
    emit (printed (codes "type: " ++ name_or (wire_type known) known))
    text ← lift (decoded_line (decode fbs known payload))
    emit (printed text)
    emit (printed (codes "---"))
  print_sample topic none payload debug = do
    emit (printed (codes "topic: " ++ topic))
    emit (printed (codes "type: unknown"))
    emit (printed (codes "payload: " ++ hex_dump payload))
    emit (printed (codes "---"))
  print_sample topic known_type payload json = do
    decoded ← lift (decode_ok known_type payload)
    line ← lift (
        enc.to_json (record {
          topic = topic;
          wire_type = and_then_wire known_type;
          payload_base64 = enc.base64 payload;
          decoded = decoded;
        }))
    emit (printed line)
