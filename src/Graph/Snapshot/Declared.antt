-- ===== src/Graph/Snapshot/Declared.antt =====
-- The web page shows every publisher and subscriber that the admin space declares.
use csyn.Common.{ℕ, List, [], ◌∷◌, ◌≡◌, All}
use mathlib.Core.Path.{subst}
use csyn.Common.Text.{codes, list_eq}
use csyn.Common.Result.{ok, bind_ok}
use csyn.Graph.State.{GraphState, elapsed_ms}
use csyn.Graph.Drawing.{GraphLink, Drawing, or_insert_node, push_link}
use csyn.Graph.Drawing.Kept.{IsAmong, Keeps, Keeping, push_link-IsAmong}
use csyn.Graph.Admin.{
  SerdeJson, AdminEntity, admin_node_id, insert_admin_node, parse_admin_entities,
  add_admin_topology,
}
use csyn.Graph.Snapshot.Kept.{add_declared-Keeps, add_entities-Keeping}
use csyn.Graph.Snapshot.{
  GraphSnapshot, topic_id_of, entity_id_of, entity_node, link_between, add_declared, add_entity,
  add_entities, draw, snapshot, snapshot_of,
}

-- The links that the loop draws for one entity.
pub record Declares (entity : AdminEntity) (links : List GraphLink) : Type 0 where
  pub owned :
      IsAmong
        (link_between
          (admin_node_id entity.mode entity.zid)
          (entity_id_of entity)
          (codes "admin")
          (codes "admin"))
        links
  pub publishes :
      entity.kind ≡ codes "publisher"
      → IsAmong
          (link_between
            (entity_id_of entity)
            (topic_id_of entity.expr)
            (codes "publisher")
            (codes "publisher"))
          links
  pub subscribes :
      entity.kind ≡ codes "subscriber"
      → IsAmong
          (link_between
            (topic_id_of entity.expr)
            (entity_id_of entity)
            (codes "subscriber")
            (codes "subscriber"))
          links

Keeps-Declares :
    (entity : AdminEntity) (d d' : Drawing)
    → Keeps d d'
    → Declares entity d.links
    → Declares entity d'.links
Keeps-Declares entity d d' k h = record {
  owned = k.link _ h.owned;
  publishes = λ e. k.link _ (h.publishes e);
  subscribes = λ e. k.link _ (h.subscribes e);
}

add_declared-publishes :
    (entity : AdminEntity) (d : Drawing)
    → entity.kind ≡ codes "publisher"
    → IsAmong
        (link_between
          (entity_id_of entity)
          (topic_id_of entity.expr)
          (codes "publisher")
          (codes "publisher"))
        (add_declared entity d).links
unfolding add_declared list_eq
add_declared-publishes entity d e = rw (add_declared, e) (push_link-IsAmong _ _)

add_declared-subscribes :
    (entity : AdminEntity) (d : Drawing)
    → entity.kind ≡ codes "subscriber"
    → IsAmong
        (link_between
          (topic_id_of entity.expr)
          (entity_id_of entity)
          (codes "subscriber")
          (codes "subscriber"))
        (add_declared entity d).links
unfolding add_declared list_eq
add_declared-subscribes entity d e = rw (add_declared, e) (push_link-IsAmong _ _)

add_entity-Declares :
    (entity : AdminEntity) (d d' : Drawing) → add_entity entity d ≡ ok d' → Declares entity d'.links
unfolding add_entity
add_entity-Declares entity d d' h =
    let router_id = admin_node_id entity.mode entity.zid in
    let (d1, e, f) =
      bind_ok _ d' (insert_admin_node router_id entity.mode entity.zid entity.zid d) h in
    let link = link_between router_id (entity_id_of entity) (codes "admin") (codes "admin") in
    let d2 = push_link link (or_insert_node (entity_node entity) d1) in
    let is : add_declared entity d2 ≡ d' = cc in
    subst (λ x. Declares entity x.links) is
      (record {
        owned = (add_declared-Keeps entity d2).link link (push_link-IsAmong link _);
        publishes = add_declared-publishes entity d2;
        subscribes = add_declared-subscribes entity d2;
      })

add_entities-Declares :
    (entities : List AdminEntity) (d d' : Drawing)
    → add_entities entities d ≡ ok d'
    → All (λ entity. Declares entity d'.links) entities
unfolding add_entities
add_entities-Declares [] d d' h = tt
add_entities-Declares (entity ∷ entities) d d' h =
    let (d1, e, f) = bind_ok (add_entities entities) d' (add_entity entity d) h in
    let k : Keeps d1 d' = subst (Keeping d1) f (add_entities-Keeping entities d1) in
    (
      Keeps-Declares entity d1 d' k (add_entity-Declares entity d d1 e),
      add_entities-Declares entities d1 d' f,
    )

-- A snapshot that succeeds has, for each entity that the admin space declares, the link from its router's node to the entity's;
-- for a publisher also the link from there to the topic of its expression, and for a subscriber the link back.
pub snapshot-Declares :
    {Value Map : Type 0} (json : SerdeJson Value Map) (s : GraphState) (now : ℕ)
    (snap : GraphSnapshot)
    → snapshot json s now ≡ ok snap
    → All (λ entity. Declares entity snap.links) (parse_admin_entities s.admin_entries)
unfolding snapshot draw
snapshot-Declares json s now snap h =
    let now_ms = elapsed_ms s.started now in
    let entities = parse_admin_entities s.admin_entries in
    let (d, f, g) = bind_ok _ snap (draw json s now_ms) h in
    let (d1, e, k) =
      bind_ok (add_entities entities) d (add_admin_topology json s.admin_entries _) f in
    let is : snapshot_of s now_ms d ≡ snap = cc in
    subst (λ x. All (λ entity. Declares entity x.links) entities) is
      (add_entities-Declares entities d1 d k)
