-- ===== src/Tests/Shown.antt =====
-- What the web page shows of one sample that was observed, behind a query of the admin poller that fails.
use csyn.Common.{◌*◌, ◌^◌, [], ◌∷◌, some, ◌≡◌, refl, arith}
use csyn.Common.Text.{codes, list_eq, text_lt, find_from, starts_with}
use csyn.Common.Map.{get, insert, keys, values}
use csyn.Common.Result.{ok}
use csyn.Types.Topic.{from_topic, canonical, from_value_encoding}
use csyn.ContractWarning.{default}
use csyn.Graph.State.{TopicStats, GraphState, elapsed_ms, trim, count_sample, observe_topic}
use csyn.Graph.State.History.{samples_of, entry, IsOrdered}
use csyn.Graph.Drawing.{Drawing, insert_node, push_link}
use csyn.Graph.Admin.{parse_admin_entities, add_admin_topology, add_payloads}
use csyn.Graph.Snapshot.{
  zenoh_node, topic_node, traffic_link, topic_id_of, add_topics, add_entities, draw, snapshot,
  snapshot_of,
}
use csyn.Graph.Snapshot.Shown.{Shows, snapshot-Shows}
use csyn.Graph.Http.{available}
use csyn.Graph.Serve.{
  System, running, Polled, query_failed, observe_sample, observe, poll_admin, observes, polls,
  Reach, here, next, serve,
}
use csyn.Graph.Serve.Logged.{logged}
use csyn.Graph.Serve.Shown.{Reach-Shows}
use csyn.Tests.Catalog.{catalog}
use csyn.Tests.Drawings.{json, started}
use csyn.Tests.Served.{pages, display, sample}

abbrev Anything : Polled → Type 0
Anything input = Unit

abbrev observed_system : System
observed_system = record {
  shared = (observe catalog display sample default (available started)).1;
  observer = (observe catalog display sample default (available started)).0;
  poller = running tt;
}

abbrev query : Polled
query = query_failed (codes "no router")

abbrev polled_system : System
polled_system = record {
  shared = (poll_admin pages.from_utf8_lossy query observed_system.shared).1;
  observer = observed_system.observer;
  poller = (poll_admin pages.from_utf8_lossy query observed_system.shared).0;
}

abbrev way : Reach json pages catalog display Anything (serve started) polled_system
unfolding serve
way =
    next (next here (observes (available started) default (running tt) sample))
      (polls observed_system.shared observed_system.observer query tt)

abbrev att : TopicStats
att = record {
  topic = codes "cub1/att";
  root_type = some (codes "synapse.topic.AttitudeEstimateData");
  messages = 1;
  bytes = 3;
  last_payload_bytes = 3;
  last_seen_ms = 4000;
  recent = 4000 ∷ [];
}

abbrev state : GraphState
state = record started {
  topics = (codes "cub1/att", att) ∷ [];
  admin_error = some (codes "admin query failed: no router");
}

abbrev drawing : Drawing
drawing = record {
  nodes =
      (topic_id_of att.topic, topic_node 7000 att)
      ∷ ((codes "zenoh", zenoh_node started.connect) ∷ []);
  links = traffic_link att ∷ [];
}

state_is : polled_system.shared ≡ available state
unfolding poll_admin observe observe_sample observe_topic from_value_encoding canonical find_from
    starts_with from_topic list_eq get insert count_sample trim elapsed_ms
state_is = refl

snap_is : snapshot json state (7 * 10 ^ 9) ≡ ok (snapshot_of state 7000 drawing)
unfolding snapshot draw add_topics insert_node push_link add_admin_topology add_payloads
    add_entities parse_admin_entities insert text_lt list_eq keys values elapsed_ms
snap_is = refl

entry_is :
    entry 0
      (codes "cub1/att")
      (samples_of (codes "cub1/att") (logged json pages catalog display Anything way))
    ≡ some att
unfolding serve from_value_encoding canonical find_from starts_with from_topic list_eq elapsed_ms
entry_is = refl

way-IsOrdered : IsOrdered 0 4000 (logged json pages catalog display Anything way)
unfolding serve from_value_encoding canonical find_from starts_with from_topic list_eq elapsed_ms
way-IsOrdered = (omega arith, tt)

Reach-Shows_example : Shows (elapsed_ms 0 (7 * 10 ^ 9)) att (snapshot_of state 7000 drawing)
Reach-Shows_example =
    Reach-Shows json pages catalog display Anything (codes "tcp/127.0.0.1:7447") (codes "**") 0
      {sys = polled_system} state (snapshot_of state 7000 drawing) (codes "cub1/att") att 4000
      (7 * 10 ^ 9) way state_is way-IsOrdered entry_is snap_is

get_is : get (codes "cub1/att") state.topics ≡ some att
unfolding get list_eq
get_is = refl

snapshot-Shows_example : Shows (elapsed_ms 0 (7 * 10 ^ 9)) att (snapshot_of state 7000 drawing)
snapshot-Shows_example =
    snapshot-Shows json state (7 * 10 ^ 9) (snapshot_of state 7000 drawing) (codes "cub1/att") att
      (tt, tt) (refl, tt) get_is snap_is
