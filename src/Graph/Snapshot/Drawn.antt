-- ===== src/Graph/Snapshot/Drawn.antt =====
-- The loops of `snapshot` over the observed topics and over the declared entities.
use csyn.Common.{ℕ, ◌∷◌, [], List, All, inl, inr, Bool-cases, refl}
use csyn.Common.Text.{codes, list_eq}
use csyn.Graph.State.{TopicStats}
use csyn.Graph.Drawing.{GraphNode, GraphLink, Drawing, insert_node, or_insert_node, push_link}
use csyn.Graph.Drawing.Growth.{
  IsNode, IsLinked, IsDrawing, Grows, Draws, Anything, Draws-ok, Draws-bind, insert_node-Grows,
  insert_node-IsNode, insert_node-IsDrawing, or_insert_node-Grows, or_insert_node-IsNode,
  or_insert_node-IsDrawing, push_link-IsDrawing, push_link-Grows,
}
use csyn.Graph.Admin.{AdminEntity, admin_node_id}
use csyn.Graph.Admin.Inserted.{CanShorten, HasNode, insert_admin_node-Draws}
use csyn.Graph.Snapshot.{
  topic_node, traffic_link, topic_id_of, entity_id_of, declared_node, entity_node, link_between,
  add_topics, add_declared, add_entity, add_entities,
}

-- A drawing that is one, has the nodes of `d`, and has the transport.
abbrev pub Continues : Drawing → Drawing → Type 0
Continues d d' = IsDrawing d' × Grows d d'

pub add_topics-IsDrawing :
    (now_ms : ℕ) (topics : List TopicStats) (d : Drawing)
    → IsDrawing d
    → IsNode d (codes "zenoh")
    → Continues d (add_topics now_ms topics d)
unfolding add_topics
add_topics-IsDrawing now_ms [] d h is = (h, λ id i. i)
add_topics-IsDrawing now_ms (topic ∷ topics) d h is =
    let node = topic_node now_ms topic in
    let link = traffic_link topic in
    let d1 = insert_node node d in
    let grown : Grows d (push_link link d1) =
      λ id i. push_link-Grows link d1 id (insert_node-Grows node d id i) in
    let ready : IsDrawing (push_link link d1) =
      push_link-IsDrawing link d1 (insert_node-IsDrawing node d h)
        (insert_node-Grows node d (codes "zenoh") is, insert_node-IsNode node d) in
    let (h', g) =
      add_topics-IsDrawing now_ms topics (push_link link d1) ready (grown (codes "zenoh") is) in
    (h', λ id i. g id (grown id i))

-- A node put in where it is vacant, and a link between it and another node.
Continues-link :
    (node : GraphNode) (link : GraphLink) (d : Drawing)
    → IsDrawing d
    → IsLinked (or_insert_node node d) link
    → Continues d (push_link link (or_insert_node node d))
Continues-link node link d h l =
    let d1 = or_insert_node node d in
    (
      push_link-IsDrawing link d1 (or_insert_node-IsDrawing node d h) l,
      λ id i. push_link-Grows link d1 id (or_insert_node-Grows node d id i),
    )

add_declared-IsDrawing :
    (entity : AdminEntity) (d : Drawing)
    → IsDrawing d
    → IsNode d (entity_id_of entity)
    → Continues d (add_declared entity d)
unfolding add_declared
add_declared-IsDrawing entity d h is =
    let entity_id = entity_id_of entity in
    let topic_id = topic_id_of entity.expr in
    let node = declared_node entity in
    let old : IsNode (or_insert_node node d) entity_id = or_insert_node-Grows node d entity_id is in
    let new : IsNode (or_insert_node node d) topic_id = or_insert_node-IsNode node d in
    let publishes =
      Continues-link node (link_between entity_id topic_id entity.kind entity.kind) d h
        (old, new) in
    let subscribes =
      Continues-link node (link_between topic_id entity_id entity.kind entity.kind) d h
        (new, old) in
    elim (Bool-cases (list_eq entity.kind (codes "publisher"))) [
      | inl e ↦ rw (add_declared, e) publishes
      | inr e ↦ elim (Bool-cases (list_eq entity.kind (codes "subscriber"))) [
        | inl f ↦ rw (add_declared, e, f) subscribes
        | inr f ↦ rw (add_declared, e, f) (h, λ id i. i)
      ]
    ]

add_entity-Draws :
    (entity : AdminEntity) (d : Drawing)
    → CanShorten entity.zid
    → IsDrawing d
    → Draws Anything d (add_entity entity d)
unfolding add_entity
add_entity-Draws entity d s h =
    let router_id = admin_node_id entity.mode entity.zid in
    let entity_id = entity_id_of entity in
    let node = entity_node entity in
    let link = link_between router_id entity_id (codes "admin") (codes "admin") in
    Draws-bind (HasNode router_id) Anything d _ _
      (insert_admin_node-Draws router_id entity.mode entity.zid entity.zid d s h)
      (λ d' h' g is.
        let placed : IsLinked (or_insert_node node d') link =
          (or_insert_node-Grows node d' router_id is, or_insert_node-IsNode node d') in
        let (h1, g1) = Continues-link node link d' h' placed in
        let (h2, g2) =
          add_declared-IsDrawing entity (push_link link (or_insert_node node d')) h1
            (push_link-Grows link (or_insert_node node d') entity_id placed.1) in
        (_, refl, h2, (λ id i. g2 id (g1 id i)), tt))

pub add_entities-Draws :
    (entities : List AdminEntity) (d : Drawing)
    → All (λ entity. CanShorten entity.zid) entities
    → IsDrawing d
    → Draws Anything d (add_entities entities d)
unfolding add_entities
add_entities-Draws [] d a h = Draws-ok d h
add_entities-Draws (entity ∷ entities) d (s, a) h =
    Draws-bind Anything Anything d _ _ (add_entity-Draws entity d s h)
      (λ d' h' g q. add_entities-Draws entities d' a h')
