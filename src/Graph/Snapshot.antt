-- ===== src/Graph/Snapshot.antt =====
-- `snapshot` of rust/src/graph.rs: the nodes, links and counters that the web page shows.
pub mod Drawn
pub mod Kept
pub mod Declared
pub mod Shown
pub mod Connected
use csyn.Common.{
  ℕ, ◌-◌, List, [], ◌∷◌, ◌++◌, true, false, ◌==◌, Option, ltb, length, map, unwrap_or,
  if◌then◌else◌,
}
use csyn.Common.Text.{Text, codes, list_eq, to_string}
use csyn.Common.Map.{values}
use csyn.Common.Result.{Result, ok, ◌>>=◌}
use csyn.Graph.State.{TopicStats, GraphState, elapsed_ms}
use csyn.Graph.Drawing.{
  GraphNode, GraphLink, Drawing, insert_node, or_insert_node, push_link, quiet_node,
}
use csyn.Graph.Admin.{
  SerdeJson, AdminEntity, admin_node_id, insert_admin_node, parse_admin_entities,
  add_admin_topology,
}

pub record TopicSnapshot : Type 0 where
  pub topic : Text
  pub root_type : Option Text
  pub messages : ℕ
  pub bytes : ℕ
  pub last_payload_bytes : ℕ
  pub age_ms : ℕ
  pub rate_hz_5s : ℕ

pub record GraphSnapshot : Type 0 where
  pub uptime_ms : ℕ
  pub connect : Text
  pub observed_keyexpr : Text
  pub admin_entries : ℕ
  pub last_admin_poll_ms : ℕ
  pub last_error : Option Text
  pub admin_error : Option Text
  pub nodes : List GraphNode
  pub links : List GraphLink
  pub topics : List TopicSnapshot

abbrev pub topic_id_of : Text → Text
topic_id_of topic = codes "topic:" ++ topic

-- The transport, with which every drawing begins.
abbrev pub zenoh_node : Text → GraphNode
zenoh_node connect = quiet_node (codes "zenoh") (codes "Zenoh") (codes "transport") connect false

abbrev pub topic_node : ℕ → TopicStats → GraphNode
topic_node now_ms topic = record {
  id = topic_id_of topic.topic;
  label = topic.topic;
  kind = codes "topic";
  detail = unwrap_or topic.root_type (codes "unknown payload");
  messages = topic.messages;
  bytes = topic.bytes;
  rate_hz = length topic.recent;
  stale = ltb 5000 (now_ms - topic.last_seen_ms);
}

abbrev pub traffic_link : TopicStats → GraphLink
traffic_link topic = record {
  source = codes "zenoh";
  target = topic_id_of topic.topic;
  label = to_string topic.messages ++ codes " msg";
  kind = codes "traffic";
}

-- The loop over the observed topics.
unfoldable pub add_topics : ℕ → List TopicStats → Drawing → Drawing
add_topics now_ms [] d = d
add_topics now_ms (topic ∷ topics) d =
    add_topics now_ms topics
      (push_link (traffic_link topic) (insert_node (topic_node now_ms topic) d))

-- `s.replace('/', "_")`
unfoldable pub replace_slash : Text → Text
replace_slash s = map (λ c. if c == b'/' then b'_' else c) s

abbrev pub entity_id_of : AdminEntity → Text
entity_id_of entity =
    codes "admin:"
    ++ (entity.kind ++ (codes ":" ++ (entity.zid ++ (codes ":" ++ replace_slash entity.expr))))

abbrev pub link_between : (source target label kind : Text) → GraphLink
link_between source target label kind = record {
  source = source;
  target = target;
  label = label;
  kind = kind;
}

abbrev pub entity_node : AdminEntity → GraphNode
entity_node entity = quiet_node (entity_id_of entity) entity.kind entity.kind entity.expr false

abbrev pub declared_node : AdminEntity → GraphNode
declared_node entity =
    quiet_node (topic_id_of entity.expr) entity.expr (codes "topic")
      (codes "declared in Zenoh admin space") true

-- The topic that a publisher or a subscriber declares, and the link to it.
unfoldable pub add_declared : AdminEntity → Drawing → Drawing
add_declared entity d =
    let entity_id = entity_id_of entity in
    let topic_id = topic_id_of entity.expr in
    let declared = or_insert_node (declared_node entity) d in
    if list_eq entity.kind (codes "publisher")
    then push_link (link_between entity_id topic_id entity.kind entity.kind) declared
    else if list_eq entity.kind (codes "subscriber")
    then push_link (link_between topic_id entity_id entity.kind entity.kind) declared
    else d

-- One pass of the loop over the admin entities.
unfoldable pub add_entity : AdminEntity → Drawing → Result Drawing
add_entity entity d =
    let router_id = admin_node_id entity.mode entity.zid in
    let link = link_between router_id (entity_id_of entity) (codes "admin") (codes "admin") in
    do
      next ← insert_admin_node router_id entity.mode entity.zid entity.zid d
      ok (add_declared entity (push_link link (or_insert_node (entity_node entity) next)))

unfoldable pub add_entities : List AdminEntity → Drawing → Result Drawing
add_entities [] d = ok d
add_entities (entity ∷ entities) d = do next ← add_entity entity d; add_entities entities next

abbrev pub topic_snapshot : ℕ → TopicStats → TopicSnapshot
topic_snapshot now_ms topic = record {
  topic = topic.topic;
  root_type = topic.root_type;
  messages = topic.messages;
  bytes = topic.bytes;
  last_payload_bytes = topic.last_payload_bytes;
  age_ms = now_ms - topic.last_seen_ms;
  rate_hz_5s = length topic.recent;
}

-- The value that `snapshot` returns, once everything is drawn.
abbrev pub snapshot_of : GraphState → ℕ → Drawing → GraphSnapshot
snapshot_of s now_ms d = record {
  uptime_ms = now_ms;
  connect = s.connect;
  observed_keyexpr = s.keyexpr;
  admin_entries = length s.admin_entries;
  last_admin_poll_ms = s.last_admin_poll_ms;
  last_error = s.last_error;
  admin_error = s.admin_error;
  nodes = values d.nodes;
  links = d.links;
  topics = map (topic_snapshot now_ms) (values s.topics);
}

module _ {Value Map : Type 0} (json : SerdeJson Value Map) where
  -- The nodes and links, in the order in which they are drawn.
  unfoldable pub draw : GraphState → ℕ → Result Drawing
  draw s now_ms =
      let first = insert_node (zenoh_node s.connect) (record { nodes = []; links = [] }) in
      do
        d ← add_admin_topology json s.admin_entries (add_topics now_ms (values s.topics) first)
        add_entities (parse_admin_entities s.admin_entries) d

  -- `snapshot` at the time `now`
  unfoldable pub snapshot : GraphState → ℕ → Result GraphSnapshot
  snapshot s now =
      let now_ms = elapsed_ms s.started now in do d ← draw s now_ms; ok (snapshot_of s now_ms d)
