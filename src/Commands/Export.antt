-- ===== src/Commands/Export.antt =====
-- `bag_export` of rust/src/main.rs. Base64 and the JSON writer are inputs, and so is what each write gives.
pub mod Replayed
pub mod Played
use csyn.Common.{ℕ, List, [], ◌∷◌, ◌++◌, true, false, Option, none, some}
use csyn.Common.Text.{Text, codes}
use csyn.Common.Bytes.{Bytes}
use csyn.Common.Result.{Result, ok, err, panic, map_err, context}
use csyn.Synapse.{SynapseFbs}
use csyn.Types.Topic.{TopicType, wire_type, zenoh_encoding}
use csyn.Bag.Profile.{McapNames, Record, profile_metadata}
use csyn.Commands.Stream.{StreamMessage, is_filtered, Decoded, decode_message}
use csyn.Commands.Trace.{Event, printed, Trace, ◌>>=◌, ◌>>◌, lift, emit}

pub data BagExportFormat : Type 0 where
  jsonl : BagExportFormat

pub record ExportFrame : Type 0 where
  pub log_time_ns : ℕ
  pub topic : Text
  pub wire_type : Option Text
  pub encoding : Text
  pub value_contract : Text
  pub payload_base64 : Text
  pub decoded : Option Text

-- `BASE64.encode`, and `serde_json::to_writer` as the text that it writes.
pub record Encoders : Type 0 where
  pub base64 : Bytes → Text
  pub to_json : ExportFrame → Result Text

-- One pass of the loop: the message, and what writing its line gives.
pub record ExportTurn : Type 0 where
  pub message : Result StreamMessage
  pub written : Result (Unit {0})

-- What the file system and the MCAP reader give to one run.
pub record ExportRun : Type 0 where
  pub contents : Result (Unit {0})
  pub records : Result (List (Result Record))
  pub create : Text → Result (Unit {0})
  pub stream : Result (List ExportTurn)
  pub flush : Result (Unit {0})

-- The file that is written, if one is named.
unfoldable pub open_output : (Text → Result (Unit {0})) → Option Text → Result (Unit {0})
open_output create none = ok tt
open_output create (some path) =
    map_err (context (codes "failed to create export output " ++ path)) (create path)

module _ (fbs : SynapseFbs) (names : McapNames) (enc : Encoders) where
  abbrev pub frame_of : StreamMessage → Decoded → ExportFrame
  frame_of message d = record {
    log_time_ns = message.log_time;
    topic = message.channel.topic;
    wire_type = wire_type d.known;
    encoding = d.known.topic.encoding;
    value_contract = zenoh_encoding fbs d.known;
    payload_base64 = enc.base64 d.payload;
    decoded = some d.text;
  }

  -- What is done with a message that is not passed over.
  unfoldable pub export_message : Result (Unit {0}) → StreamMessage → Trace (Unit {0})
  export_message written message = do
    decoded ← lift (decode_message fbs names message)
    line ← lift (enc.to_json (frame_of message decoded))
    lift written
    emit (printed line)

  module _ (topic_filter : Option Text) where
    unfoldable pub export_loop : List ExportTurn → Trace (Unit {0})
    export_loop [] = lift (ok tt)
    export_loop (t ∷ turns) =
        elim (map_err (context (codes "failed to read bag message")) t.message) [
          | err e ↦ lift (err e)
          | panic ↦ lift panic
          | ok message ↦ elim (is_filtered topic_filter message.channel.topic) [
            | true ↦ export_loop turns
            | false ↦ export_message t.written message >> export_loop turns
          ]
        ]

  unfoldable pub bag_export_jsonl : ExportRun → Option Text → Option Text → Trace (Unit {0})
  bag_export_jsonl run output topic_filter = do
    lift run.contents
    lift (profile_metadata names run.records)
    lift (open_output run.create output)
    turns ← lift (map_err (context (codes "failed to open bag")) run.stream)
    export_loop topic_filter turns
    lift run.flush

  unfoldable pub bag_export :
      ExportRun → Option Text → BagExportFormat → Option Text → Trace (Unit {0})
  bag_export run output jsonl topic_filter = bag_export_jsonl run output topic_filter
