-- ===== src/Graph/State.antt =====
-- The state of the graph debugger of rust/src/graph.rs, shared by the observer, the admin poller and the HTTP
-- handlers under one mutex. An `Instant` is a number of nanoseconds, and each operation takes the
-- time at which it reads the clock. Counters are `u64` and wrap in a release build.
pub mod Keyed
pub mod Window
pub mod History
use csyn.Common.{
  ℕ, ◌+◌, ◌-◌, ◌*◌, ◌/◌, ◌%◌, ◌^◌, List, [], ◌∷◌, ◌++◌, Option, none, some, Bool, true, false, ltb,
  if◌then◌else◌,
}
use csyn.Common.Text.{Text}
use csyn.Common.Map.{BTreeMap, get, insert}

pub record TopicStats : Type 0 where
  pub topic : Text
  pub root_type : Option Text
  pub messages : ℕ
  pub bytes : ℕ
  pub last_payload_bytes : ℕ
  pub last_seen_ms : ℕ
  -- The arrival times of the last five seconds, the oldest at the front.
  pub recent : List ℕ

pub record GraphState : Type 0 where
  pub connect : Text
  pub keyexpr : Text
  pub started : ℕ
  pub topics : BTreeMap TopicStats
  pub admin_entries : BTreeMap Text
  pub last_admin_poll_ms : ℕ
  pub last_error : Option Text
  pub admin_error : Option Text

-- `GraphState::new`
abbrev pub new : Text → Text → ℕ → GraphState
new connect keyexpr started = record {
  connect = connect;
  keyexpr = keyexpr;
  started = started;
  topics = [];
  admin_entries = [];
  last_admin_poll_ms = 0;
  last_error = none;
  admin_error = none;
}

-- `started.elapsed().as_millis() as u64` at the time `now`.
unfoldable pub elapsed_ms : ℕ → ℕ → ℕ
elapsed_ms started now = (now - started) / 10 ^ 6 % 2 ^ 64

-- `while recent.front().is_some_and(|oldest| now - oldest > 5_000) { recent.pop_front(); }`
unfoldable pub trim : ℕ → List ℕ → List ℕ
trim now [] = []
trim now (oldest ∷ recent) =
    let rest = trim now recent in if ltb 5000 (now - oldest) then rest else oldest ∷ recent

abbrev pub or_root : Option Text → Option Text → Option Text
or_root none root_type = root_type
or_root (some root) root_type = some root

-- What `or_insert_with` puts for a topic that is seen for the first time.
abbrev pub first_stats : ℕ → Text → Option Text → TopicStats
first_stats now topic root_type = record {
  topic = topic;
  root_type = root_type;
  messages = 0;
  bytes = 0;
  last_payload_bytes = 0;
  last_seen_ms = now;
  recent = [];
}

abbrev pub or_first : Option TopicStats → TopicStats → TopicStats
or_first none first = first
or_first (some stats) first = stats

-- The changes that one sample makes to the entry of its topic.
unfoldable pub count_sample : ℕ → ℕ → Option Text → TopicStats → TopicStats
count_sample now payload_len root_type stats = record {
  topic = stats.topic;
  root_type = or_root stats.root_type root_type;
  messages = (stats.messages + 1) % 2 ^ 64;
  bytes = (stats.bytes + payload_len % 2 ^ 64) % 2 ^ 64;
  last_payload_bytes = payload_len % 2 ^ 64;
  last_seen_ms = now;
  recent = trim now (stats.recent ++ (now ∷ []));
}

-- `observe_topic`
unfoldable pub observe_topic : GraphState → ℕ → Text → ℕ → Option Text → GraphState
observe_topic s instant topic payload_len root_type =
    let now = elapsed_ms s.started instant in
    let entry = or_first (get topic s.topics) (first_stats now topic root_type) in
    record s { topics = insert topic (count_sample now payload_len root_type entry) s.topics }
