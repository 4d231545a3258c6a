-- ===== src/Tests/Replayed.antt =====
-- A replay of two messages, also with `--rate nan`: NaN is not at most zero, and no quotient by it is a `Duration`.
use csyn.Common.{◌++◌, ◌==◌, some, if◌then◌else◌, [], ◌∷◌, false, none, ◌≡◌, refl, ℕ}
use csyn.Common.Text.{codes, list_eq}
use csyn.Common.Result.{ok, panic}
use csyn.Types.Wrapper.{unwrap_fixed_payload, range_is}
use csyn.Types.Topic.{zenoh_encoding, mcap_to_zenoh_payload, decode}
use csyn.Commands.Clock.{StdTime}
use csyn.Commands.Stream.{Decoded, decode_message}
use csyn.Commands.Trace.{Publication, slept, put}
use csyn.Commands.Play.{Turn, PlayRun, bag_play}
use csyn.Commands.Play.Replay.{Publishes}
use csyn.Commands.Play.Paced.{Timed, PublishesAt, bag_play-schedule}
use csyn.Commands.Play.Long.{bag_play_panics}
use csyn.Tests.Catalog.{catalog, attitude, encode, known_attitude}
use csyn.Tests.Bags.{names, channel, channel_is_attitude, payload, file, expected, read_file}
use csyn.Tests.Recorded.{time}
use csyn.Tests.Exported.{message}

-- A clock whose only rate is NaN.
abbrev nan_time : StdTime ℕ
nan_time = record time { scaled = λ rate delta. none }

abbrev turn : (log_time : ℕ) → Turn
turn log_time = record {
  message = ok (record message { log_time = log_time });
  shutdown = false;
  published = ok tt;
}

abbrev run : PlayRun
run = record {
  session = ok tt;
  contents = ok tt;
  records = ok file;
  stream = ok (turn 5 ∷ (turn 9 ∷ []));
}

abbrev decoded : Decoded
decoded = record { known = known_attitude; payload = payload; text = attitude.name }

abbrev published : Publication
published = record {
  key = channel.topic;
  payload = payload;
  encoding = codes "zenoh/bytes;" ++ encode attitude;
}

message-decodes :
    (log_time : ℕ)
    → decode_message catalog names (record message { log_time = log_time }) ≡ ok decoded
unfolding decode_message mcap_to_zenoh_payload decode unwrap_fixed_payload range_is list_eq
message-decodes log_time = rw channel_is_attitude refl

turn-Publishes : (log_time : ℕ) → Publishes catalog names none (turn log_time) published
unfolding zenoh_encoding
turn-Publishes log_time = record {
  message = record message { log_time = log_time };
  decoded = decoded;
  is_read = refl;
  passes = refl;
  runs = refl;
  decodes = message-decodes log_time;
  accepted = refl;
  is_put = refl;
}

abbrev sample : (log_time : ℕ) → Timed
sample log_time = record { log_time = log_time; publication = published }

turn-PublishesAt :
    (t : StdTime ℕ) (log_time : ℕ)
    → PublishesAt t catalog names 1 none (turn log_time) (sample log_time)
unfolding turn-Publishes
turn-PublishesAt t log_time = record { publishes = turn-Publishes log_time; same_time = refl }

-- A rate for which four nanoseconds are fine, and more are not.
abbrev short_time : StdTime ℕ
short_time = record time { scaled = λ rate delta. if delta == 4 then some 4 else none }

abbrev long_run : PlayRun
long_run = record run { stream = ok (turn 5 ∷ (turn 9 ∷ (turn 100 ∷ (turn 104 ∷ [])))) }

bag_play_panics_example :
    bag_play short_time catalog names 1 none long_run
    ≡ (panic, put published ∷ (slept 4 ∷ (put published ∷ [])))
bag_play_panics_example =
    bag_play_panics short_time catalog names 1 none (λ d. 4) (turn 100) (turn 104 ∷ [])
      (record message { log_time = 100 }) refl refl refl long_run expected (turn 5) (turn 9 ∷ [])
      (sample 5) (sample 9 ∷ []) refl refl refl read_file refl
      (turn-PublishesAt short_time 5, (turn-PublishesAt short_time 9, tt)) (refl, tt) refl

-- With NaN already the second message is too late.
nan_panics : bag_play nan_time catalog names 1 none run ≡ (panic, put published ∷ [])
nan_panics =
    bag_play_panics nan_time catalog names 1 none (λ d. d) (turn 9) []
      (record message { log_time = 9 }) refl refl refl run expected (turn 5) [] (sample 5) [] refl
      refl refl read_file refl (turn-PublishesAt nan_time 5, tt) tt refl

bag_play-schedule_example :
    bag_play time catalog names 1 none run
    ≡ (ok 2, put published ∷ (slept 4 ∷ (put published ∷ [])))
bag_play-schedule_example =
    bag_play-schedule time catalog names 1 none (λ d. d) (λ d. refl) run expected
      (turn 5 ∷ (turn 9 ∷ [])) (sample 5 ∷ (sample 9 ∷ [])) refl refl refl read_file refl
      (turn-PublishesAt time 5, (turn-PublishesAt time 9, tt))
