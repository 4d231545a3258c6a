-- ===== src/Graph/Snapshot/Kept.antt =====
-- The loop of `snapshot` over the declared entities changes no node and no link that is there.
use csyn.Common.{List, [], ◌∷◌, inl, inr, Bool-cases}
use csyn.Common.Text.{codes, list_eq}
use csyn.Graph.Drawing.{GraphLink, Drawing, or_insert_node, push_link}
use csyn.Graph.Drawing.Kept.{
  Keeps, Keeping, Keeps-refl, Keeps-trans, Keeping-bind, or_insert_node-Keeps, push_link-Keeps,
}
use csyn.Graph.Admin.{AdminEntity, admin_node_id, insert_admin_node}
use csyn.Graph.Admin.Kept.{insert_admin_node-Keeping}
use csyn.Graph.Snapshot.{
  entity_id_of, entity_node, declared_node, link_between, add_declared, add_entity, add_entities,
}

pub add_declared-Keeps : (entity : AdminEntity) (d : Drawing) → Keeps d (add_declared entity d)
unfolding add_declared
add_declared-Keeps entity d =
    let node = declared_node entity in
    let linked = λ (link : GraphLink).
      Keeps-trans d (or_insert_node node d) (push_link link (or_insert_node node d))
        (or_insert_node-Keeps node d) (push_link-Keeps link (or_insert_node node d)) in
    elim (Bool-cases (list_eq entity.kind (codes "publisher"))) [
      | inl e ↦ rw (add_declared, e) (linked _)
      | inr e ↦ elim (Bool-cases (list_eq entity.kind (codes "subscriber"))) [
        | inl f ↦ rw (add_declared, e, f) (linked _)
        | inr f ↦ rw (add_declared, e, f) (Keeps-refl d)
      ]
    ]

add_entity-Keeping : (entity : AdminEntity) (d : Drawing) → Keeping d (add_entity entity d)
unfolding add_entity
add_entity-Keeping entity d =
    let router_id = admin_node_id entity.mode entity.zid in
    let node = entity_node entity in
    let link = link_between router_id (entity_id_of entity) (codes "admin") (codes "admin") in
    Keeping-bind d (insert_admin_node router_id entity.mode entity.zid entity.zid d) _
      (insert_admin_node-Keeping router_id entity.mode entity.zid entity.zid d)
      λ d'.
        let d1 = or_insert_node node d' in
        Keeps-trans d' d1 (add_declared entity (push_link link d1)) (or_insert_node-Keeps node d') (
          Keeps-trans d1 (push_link link d1) (add_declared entity (push_link link d1))
            (push_link-Keeps link d1) (add_declared-Keeps entity (push_link link d1)))

pub add_entities-Keeping :
    (entities : List AdminEntity) (d : Drawing) → Keeping d (add_entities entities d)
unfolding add_entities
add_entities-Keeping [] d = Keeps-refl d
add_entities-Keeping (entity ∷ entities) d =
    Keeping-bind d (add_entity entity d) (add_entities entities) (add_entity-Keeping entity d)
      (add_entities-Keeping entities)
