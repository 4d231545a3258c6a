-- ===== src/Tests/Exported.antt =====
-- A bag of two messages that is exported and replayed.
use csyn.Common.{List, [], ◌∷◌, none, ◌≡◌, refl}
use csyn.Common.Text.{list_eq}
use csyn.Common.Result.{ok}
use csyn.Types.Wrapper.{unwrap_fixed_payload, range_is}
use csyn.Types.Topic.{mcap_to_zenoh_payload, decode}
use csyn.Commands.Stream.{StreamMessage, decode_message}
use csyn.Commands.Export.{
  Encoders, ExportTurn, ExportRun, jsonl, open_output, export_message, export_loop,
  bag_export_jsonl, bag_export,
}
use csyn.Commands.Export.Played.{Agree, replay_of, bag_export-bag_play}
use csyn.Commands.Play.{bag_play}
use csyn.Tests.Catalog.{catalog}
use csyn.Tests.Bags.{names, channel, channel_is_attitude, stored, file, read_file}
use csyn.Tests.Recorded.{time}

-- Base64 that changes nothing, and JSON of the topic alone.
abbrev enc : Encoders
enc = record { base64 = λ payload. payload; to_json = λ frame. ok frame.topic }

abbrev pub message : StreamMessage
message = record { channel = channel; log_time = 5; contents = stored }

abbrev turns : List ExportTurn
turns =
    record { message = ok message; written = ok tt }
    ∷ (record { message = ok message; written = ok tt } ∷ [])

export_loop-succeeds : (export_loop catalog names enc none turns).0 ≡ ok tt
unfolding export_loop export_message decode_message mcap_to_zenoh_payload decode
    unwrap_fixed_payload range_is list_eq
export_loop-succeeds = rw channel_is_attitude refl

abbrev run : ExportRun
run = record {
  contents = ok tt;
  records = ok file;
  create = λ path. ok tt;
  stream = ok turns;
  flush = ok tt;
}

bag_export-succeeds : (bag_export catalog names enc run none jsonl none).0 ≡ ok tt
unfolding bag_export bag_export_jsonl open_output
bag_export-succeeds = rw (read_file, export_loop-succeeds) refl

bag_export-bag_play_example :
    Agree catalog names enc time 1 none
      (bag_export catalog names enc run none jsonl none)
      (bag_play time catalog names 1 none (replay_of run))
bag_export-bag_play_example =
    bag_export-bag_play catalog names enc time 1 none run none jsonl (λ d. (d, refl)) refl
      bag_export-succeeds
