-- ===== src/Tests/Observed.antt =====
-- The graph state after a few samples.
use csyn.Common.{ℕ, ◌*◌, ◌^◌, ◌≡◌, refl, arith, List, [], ◌∷◌, Option, none, some}
use csyn.Common.Text.{Text, codes, list_eq, text_lt}
use csyn.Common.Map.{get, insert}
use csyn.Graph.State.{GraphState, new, elapsed_ms, trim, count_sample, observe_topic}
use csyn.Graph.State.History.{Sample, after, samples_of, entry, IsOrdered, get-after}

abbrev sample : ℕ → Text → ℕ → Option Text → Sample
sample ms topic len root = record {
  instant = ms * 10 ^ 6;
  topic = topic;
  payload_len = len;
  root_type = root;
}

-- The latest first.
abbrev samples : List Sample
samples =
    sample 7000 (codes "att") 30 (some (codes "B"))
    ∷ (sample 2500 (codes "imu") 8 none
        ∷ (sample 2000 (codes "att") 20 (some (codes "A"))
            ∷ (sample 1000 (codes "att") 10 none ∷ [])))

abbrev start : GraphState
start = new (codes "tcp/127.0.0.1:7447") (codes "**") 0

attitude_entry :
    get (codes "att") (after start samples).topics
    ≡ some (record {
      topic = codes "att";
      root_type = some (codes "A");
      messages = 3;
      bytes = 60;
      last_payload_bytes = 30;
      last_seen_ms = 7000;
      recent = 2000 ∷ 7000 ∷ [];
    })
unfolding after observe_topic count_sample trim get insert list_eq text_lt elapsed_ms
attitude_entry = refl

samples-IsOrdered : IsOrdered 0 7000 samples
unfolding elapsed_ms
samples-IsOrdered = omega arith

get-after_example :
    get (codes "att") (after start samples).topics
    ≡ entry 0 (codes "att") (samples_of (codes "att") samples)
get-after_example =
    get-after (codes "tcp/127.0.0.1:7447") (codes "**") 0 (codes "att") 7000 samples
      samples-IsOrdered
