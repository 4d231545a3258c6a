-- ===== src/Tests/Declared.antt =====
-- The snapshot of an admin space in which one session declares two publishers whose expressions differ in one slash: the second
-- has no node of its own.
use csyn.Common.{List, [], ◌∷◌, ◌≡◌, refl, All}
use csyn.Common.Text.{Text, codes, list_eq, text_lt, split, join, len}
use csyn.Common.Map.{get, insert, or_insert, keys, values}
use csyn.Common.Result.{ok}
use csyn.Graph.State.{GraphState, elapsed_ms}
use csyn.Graph.Drawing.{GraphNode, GraphLink, Drawing, insert_node, or_insert_node, push_link}
use csyn.Graph.Admin.{
  AdminEntity, admin_kind, admin_node_id, admin_node, shorten, insert_admin_node, entity_of,
  parse_admin_entities, object_of, string_field, array_field, insert_self, insert_field, add_router,
  add_object, add_payloads, add_admin_topology,
}
use csyn.Graph.Snapshot.{
  zenoh_node, replace_slash, entity_node, declared_node, link_between, topic_id_of, add_topics,
  add_declared, add_entity, add_entities, draw, snapshot, snapshot_of,
}
use csyn.Graph.Snapshot.Declared.{Declares, snapshot-Declares}
use csyn.Tests.Drawings.{json, started}

abbrev publisher : Text → AdminEntity
publisher expr = record {
  zid = codes "abc";
  mode = codes "router";
  kind = codes "publisher";
  expr = expr;
}

abbrev nested : AdminEntity
nested = publisher (codes "a/b")

abbrev flat : AdminEntity
flat = publisher (codes "a_b")

abbrev state : GraphState
state = record started {
  admin_entries =
      (codes "@/abc/router/publisher/a/b/publisher", codes "{}")
      ∷ ((codes "@/abc/router/publisher/a_b/publisher", codes "{}") ∷ []);
}

abbrev shared_id : Text
shared_id = codes "admin:publisher:abc:a_b"

abbrev router_node : GraphNode
router_node = admin_node (codes "router:abc") (codes "router") (codes "abc") (codes "abc")

abbrev links_of : AdminEntity → List GraphLink
links_of entity =
    link_between router_node.id shared_id (codes "admin") (codes "admin")
    ∷ (link_between shared_id (topic_id_of entity.expr) (codes "publisher") (codes "publisher")
        ∷ [])

abbrev drawing : Drawing
drawing = record {
  nodes =
      (shared_id, entity_node nested)
      ∷ ((router_node.id, router_node)
          ∷ ((topic_id_of nested.expr, declared_node nested)
              ∷ ((topic_id_of flat.expr, declared_node flat)
                  ∷ ((codes "zenoh", zenoh_node started.connect) ∷ []))));
  links =
      link_between router_node.id shared_id (codes "admin") (codes "admin")
      ∷ (link_between shared_id (topic_id_of nested.expr) (codes "publisher") (codes "publisher")
          ∷ links_of flat);
}

drawing_is : snapshot json state 0 ≡ ok (snapshot_of state 0 drawing)
unfolding snapshot draw add_topics insert_node push_link or_insert_node add_admin_topology
    add_payloads object_of add_object insert_self insert_field add_router string_field array_field
    add_entities add_entity add_declared insert_admin_node shorten admin_node_id admin_kind
    entity_of replace_slash parse_admin_entities insert or_insert get text_lt list_eq keys values
    elapsed_ms split join len
drawing_is = refl

snapshot-Declares_example :
    All (λ entity. Declares entity drawing.links) (parse_admin_entities state.admin_entries)
snapshot-Declares_example = snapshot-Declares json state 0 (snapshot_of state 0 drawing) drawing_is
