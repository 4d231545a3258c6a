-- ===== src/Commands/Info.antt =====
-- `bag_info` of rust/src/main.rs. The two maps of the loop, over numbers of channels and of schemas, are lists in the
-- order of their keys.
pub mod Summed
pub mod Missing
use csyn.Common.{
  ℕ, ◌+◌, ◌-◌, ◌%◌, ◌^◌, min, max, List, [], ◌∷◌, ◌++◌, Option, none, some, ltb, ◌==◌, length,
  unwrap_or, map, if◌then◌else◌,
}
use csyn.Common.Text.{Text, codes, to_string}
use csyn.Common.Map.{get}
use csyn.Common.Result.{Result, ok, err, panic, ◌>>=◌, ◌>>◌, map_err, context, expect}
use csyn.Bag.Profile.{McapNames, Record, ProfileMetadata, profile_metadata}
use csyn.Bag.Channel.{Schema, Channel}
use csyn.Commands.Stream.{StreamMessage}
use csyn.Commands.Observe.{line_of}

-- The value of the map for a channel: the channel of its first message, and the number of its messages.
pub record ChannelCount : Type 0 where
  pub channel : Channel
  pub count : ℕ

-- The variables of the loop.
pub record Summary : Type 0 where
  pub channels : List ChannelCount
  pub schemas : List ℕ
  pub message_count : ℕ
  pub start_time : ℕ
  pub end_time : ℕ

abbrev pub empty_summary : Summary
empty_summary = record {
  channels = [];
  schemas = [];
  message_count = 0;
  start_time = 2 ^ 64 - 1;
  end_time = 0;
}

-- `schemas.insert(id)`
unfoldable pub insert_id : ℕ → List ℕ → List ℕ
insert_id id [] = id ∷ []
insert_id id (j ∷ ids) =
    if j == id then j ∷ ids else if ltb id j then id ∷ (j ∷ ids) else j ∷ insert_id id ids

-- `channels.entry(id).or_insert_with(|| (channel, 0)).1 += 1`
unfoldable pub count_channel : Channel → List ChannelCount → List ChannelCount
count_channel channel [] = record { channel = channel; count = 1 } ∷ []
count_channel channel (e ∷ es) =
    if e.channel.id == channel.id
    then record { channel = e.channel; count = (e.count + 1) % 2 ^ 64 } ∷ es
    else if ltb channel.id e.channel.id
    then record { channel = channel; count = 1 } ∷ (e ∷ es)
    else e ∷ count_channel channel es

abbrev pub add_message : StreamMessage → Schema → Summary → Summary
add_message message schema s = record {
  channels = count_channel message.channel s.channels;
  schemas = insert_id schema.id s.schemas;
  message_count = (s.message_count + 1) % 2 ^ 64;
  start_time = min s.start_time message.log_time;
  end_time = max s.end_time message.log_time;
}

unfoldable pub info_loop : Summary → List (Result StreamMessage) → Result Summary
info_loop s [] = ok s
info_loop s (m ∷ messages) = elim (map_err (context (codes "failed to read bag message")) m) [
  | err e ↦ err e
  | panic ↦ panic
  | ok message ↦ elim message.channel.schema [
    | none ↦ panic
    | some schema ↦ info_loop (add_message message schema s) messages
  ]
]

abbrev pub schema_name : Option Schema → Text
schema_name none = codes "unknown"
schema_name (some schema) = schema.name

-- How a number of nanoseconds is written, as seconds with six decimals, is an input.
module _ (names : McapNames) (seconds : ℕ → Text) where
  abbrev pub channel_line : ChannelCount → Text
  channel_line e =
      codes "  "
      ++ (e.channel.topic
          ++ (codes " ["
              ++ (schema_name e.channel.schema
                  ++ (codes "] messages="
                      ++ (to_string e.count
                          ++ (codes " encoding="
                              ++ (e.channel.message_encoding
                                  ++ (codes " topic_id="
                                      ++ unwrap_or (get names.topic_id_key e.channel.metadata)
                                          (codes "missing")))))))))

  abbrev pub channel_lines : List ChannelCount → List Text
  channel_lines [] = []
  channel_lines (e ∷ es) = [] ∷ (codes "channels:" ∷ map channel_line (e ∷ es))

  abbrev pub duration_lines : Summary → List Text
  duration_lines s =
      if ltb 0 s.message_count
      then line_of (codes "duration") (seconds (s.end_time - s.start_time) ++ codes " s") ∷ []
      else []

  -- The lines that are printed behind the loop.
  unfoldable pub info_lines : Text → ProfileMetadata → Summary → List Text
  info_lines input profile s =
      line_of (codes "file") input
      ∷ (codes "format: mcap"
          ∷ (line_of (codes "profile") names.profile
              ∷ (line_of (codes "library") profile.library
                  ∷ (line_of (codes "source") profile.source
                      ∷ (line_of (codes "session") profile.session_id
                          ∷ (line_of (codes "time basis") profile.time_basis
                              ∷ (line_of (codes "schema set") profile.schema_set_hash
                                  ∷ (line_of (codes "schemas") (to_string (length s.schemas))
                                      ∷ (line_of (codes "channels") (to_string (length s.channels))
                                          ∷ (line_of (codes "messages") (to_string s.message_count)
                                              ∷ (duration_lines s
                                                  ++ channel_lines s.channels)))))))))))

  -- `bag_info`, on what the file system and the MCAP reader give.
  unfoldable pub bag_info :
      (contents : Result (Unit {0}))
      → Result (List (Result Record))
      → Result (List (Result StreamMessage))
      → Text
      → Result (List Text)
  bag_info contents records stream input = do
    contents
    profile ← profile_metadata names records
    messages ← map_err (context (codes "failed to open bag")) stream
    s ← info_loop empty_summary messages
    ok (info_lines input profile s)
