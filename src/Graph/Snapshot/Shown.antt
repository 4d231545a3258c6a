-- ===== src/Graph/Snapshot/Shown.antt =====
-- The web page shows every observed topic with what was counted for it.
use csyn.Common.{
  refl, ◌+◌, ◌-◌, ◌<◌, ◌↔◌, ◌++◌, Bool, Option, ltb, length, unwrap_or, ℕ, List, [], ◌∷◌, true,
  false, none, some, ◌≡◌, arith, All, inl, inr, Bool-cases, ◌∙◌, sym,
}
use mathlib.Core.Path.{subst}
use csyn.Common.Text.{to_string, codes, Text, list_eq}
use csyn.Common.TextOrder.{list_eq_iff, text_lt→ne}
use csyn.Common.Map.{BTreeMap, get, values}
use csyn.Common.Map.Laws.{get-insert, get-insert_self}
use csyn.Common.Map.Sorted.{IsSorted, IsAbove}
use csyn.Common.Result.{ok, bind_ok}
use csyn.Graph.State.{TopicStats, GraphState, elapsed_ms}
use csyn.Graph.State.Keyed.{AreKeyed}
use csyn.Graph.Drawing.{Drawing, insert_node, push_link}
use csyn.Graph.Drawing.Kept.{
  IsAmong, Keeps, Keeping, Keeping-bind, push_link-Keeps, push_link-IsAmong, get-IsAmong,
  IsAmong-map, some_inj,
}
use csyn.Graph.Admin.{SerdeJson, parse_admin_entities, add_admin_topology}
use csyn.Graph.Admin.Kept.{add_admin_topology-Keeping}
use csyn.Graph.Snapshot.Kept.{add_entities-Keeping}
use csyn.Graph.Snapshot.{
  GraphSnapshot, topic_id_of, zenoh_node, topic_node, traffic_link, topic_snapshot, add_topics,
  draw, snapshot, snapshot_of,
}

-- What the loop over the topics draws for one of them.
pub record Draws (now_ms : ℕ) (stats : TopicStats) (d : Drawing) : Type 0 where
  pub node : get (topic_id_of stats.topic) d.nodes ≡ some (topic_node now_ms stats)
  pub link : IsAmong (traffic_link stats) d.links

-- Other topics do not change that.
later-Draws :
    (now_ms : ℕ) (stats : TopicStats) (topics : List TopicStats) (d : Drawing)
    → All (λ t. list_eq t.topic stats.topic ≡ false) topics
    → Draws now_ms stats d
    → Draws now_ms stats (add_topics now_ms topics d)
unfolding add_topics insert_node
later-Draws now_ms stats [] d a h = h
later-Draws now_ms stats (t ∷ topics) d (n, a) h =
    let d1 = insert_node (topic_node now_ms t) d in
    let other : list_eq (topic_id_of t.topic) (topic_id_of stats.topic) ≡ false =
      unfold list_eq in n in
    later-Draws now_ms stats topics (push_link (traffic_link t) d1) a (record {
      node =
          unfold push_link in
          get-insert (topic_id_of stats.topic) (topic_id_of t.topic) (topic_node now_ms t) d.nodes
          ∙ rw other h.node;
      link = (push_link-Keeps (traffic_link t) d1).link (traffic_link stats) h.link;
    })

IsAbove-differs :
    (key : Text) (m : BTreeMap TopicStats)
    → IsAbove key m
    → AreKeyed m
    → All (λ t. list_eq t.topic key ≡ false) (values m)
unfolding values
IsAbove-differs key [] a k = tt
IsAbove-differs key ((j, t) ∷ m) (b, a) (e, k) = (
  ground (arith, e, text_lt→ne key j b, list_eq_iff t.topic key, list_eq_iff key j),
  IsAbove-differs key m a k,
)

add_topics-Draws :
    (now_ms : ℕ) (key : Text) (stats : TopicStats) (m : BTreeMap TopicStats) (d : Drawing)
    → IsSorted m
    → AreKeyed m
    → get key m ≡ some stats
    → Draws now_ms stats (add_topics now_ms (values m) d)
unfolding add_topics values get
add_topics-Draws now_ms key stats [] d s k e = cc
add_topics-Draws now_ms key stats ((j, t) ∷ m) d (a, s) (same, k) e =
    let d1 = insert_node (topic_node now_ms t) d in
    let d2 = push_link (traffic_link t) d1 in
    elim (Bool-cases (list_eq j key)) [
      | inl found ↦
          let is : t ≡ stats = some_inj (rw (get, found) at e) in
          let drawn : Draws now_ms t d2 = record {
            node =
                unfold insert_node push_link in
                get-insert_self (topic_id_of t.topic) (topic_node now_ms t) d.nodes;
            link = push_link-IsAmong (traffic_link t) d1;
          } in
          subst (λ x. Draws now_ms x (add_topics now_ms (values m) d2)) is
            (later-Draws now_ms t (values m) d2
              (subst (λ x. All (λ o. list_eq o.topic x ≡ false) (values m)) (sym same)
                (IsAbove-differs j m a k))
              drawn)
      | inr missed ↦ add_topics-Draws now_ms key stats m d2 s k (rw (get, missed) at e)
    ]

-- What stands under a topic's name: its type, or that the payload is unknown.
abbrev pub detail_of : Option Text → Text
detail_of (some root_type) = root_type
detail_of none = codes "unknown payload"

-- The node, the link and the row of a topic whose counters are `stats`, field by field. A topic is stale when no sample has come
-- for more than five seconds.
pub record Shows (now_ms : ℕ) (stats : TopicStats) (snap : GraphSnapshot) : Type 0 where
  pub stale : Bool
  pub is_stale : (stale ≡ true) ↔ (stats.last_seen_ms + 5000 < now_ms)
  pub node :
      IsAmong
        (record {
          id = codes "topic:" ++ stats.topic;
          label = stats.topic;
          kind = codes "topic";
          detail = detail_of stats.root_type;
          messages = stats.messages;
          bytes = stats.bytes;
          rate_hz = length stats.recent;
          stale = stale;
        })
        snap.nodes
  pub link :
      IsAmong
        (record {
          source = codes "zenoh";
          target = codes "topic:" ++ stats.topic;
          label = to_string stats.messages ++ codes " msg";
          kind = codes "traffic";
        })
        snap.links
  pub row :
      IsAmong
        (record {
          topic = stats.topic;
          root_type = stats.root_type;
          messages = stats.messages;
          bytes = stats.bytes;
          last_payload_bytes = stats.last_payload_bytes;
          age_ms = now_ms - stats.last_seen_ms;
          rate_hz_5s = length stats.recent;
        })
        snap.topics

detail_is : (o : Option Text) → unwrap_or o (codes "unknown payload") ≡ detail_of o
detail_is none = refl
detail_is (some root_type) = refl

is_stale : (now_ms last : ℕ) → (ltb 5000 (now_ms - last) ≡ true) ↔ (last + 5000 < now_ms)
is_stale now_ms last = (λ h. ground arith, λ h. ground arith)

module _ {Value Map : Type 0} (json : SerdeJson Value Map) (s : GraphState) where
  draw-Draws :
      (now_ms : ℕ) (key : Text) (stats : TopicStats) (d : Drawing)
      → IsSorted s.topics
      → AreKeyed s.topics
      → get key s.topics ≡ some stats
      → draw json s now_ms ≡ ok d
      → Draws now_ms stats d
  unfolding draw
  draw-Draws now_ms key stats d sorted keyed e drawn =
      let empty : Drawing = record { nodes = []; links = [] } in
      let first = add_topics now_ms (values s.topics) (insert_node (zenoh_node s.connect) empty) in
      let h : Draws now_ms stats first =
        add_topics-Draws now_ms key stats s.topics _ sorted keyed e in
      let kept : Keeping first (draw json s now_ms) =
        Keeping-bind first (add_admin_topology json s.admin_entries first) _
          (add_admin_topology-Keeping json s.admin_entries first)
          (add_entities-Keeping (parse_admin_entities s.admin_entries)) in
      let k : Keeps first d = subst (Keeping first) drawn kept in
      record {
        node = k.node (topic_id_of stats.topic) (topic_node now_ms stats) h.node;
        link = k.link (traffic_link stats) h.link;
      }

  -- Where the observed topics are sorted and each entry is that of its key, a snapshot that succeeds has a node, a link from the
  -- transport and a row for each of them, all with its counters, its type and its age, whatever the admin space holds.
  pub snapshot-Shows :
      (now : ℕ) (snap : GraphSnapshot) (key : Text) (stats : TopicStats)
      → IsSorted s.topics
      → AreKeyed s.topics
      → get key s.topics ≡ some stats
      → snapshot json s now ≡ ok snap
      → Shows (elapsed_ms s.started now) stats snap
  unfolding snapshot values
  snapshot-Shows now snap key stats sorted keyed e h =
      let now_ms = elapsed_ms s.started now in
      let (d, f, g) = bind_ok _ snap (draw json s now_ms) h in
      let drawn : Draws now_ms stats d = draw-Draws now_ms key stats d sorted keyed e f in
      let is : snapshot_of s now_ms d ≡ snap = cc in
      subst (Shows now_ms stats) is (record {
        stale = ltb 5000 (now_ms - stats.last_seen_ms);
        is_stale = is_stale now_ms stats.last_seen_ms;
        node =
            subst (λ x. IsAmong (record (topic_node now_ms stats) { detail = x }) (values d.nodes))
              (detail_is stats.root_type)
              (get-IsAmong (topic_id_of stats.topic) d.nodes (topic_node now_ms stats) drawn.node);
        link = drawn.link;
        row =
            IsAmong-map (topic_snapshot now_ms) stats (values s.topics)
              (get-IsAmong key s.topics stats e);
      })
