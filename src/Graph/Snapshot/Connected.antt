-- ===== src/Graph/Snapshot/Connected.antt =====
-- What the web page is given is a graph: its links join its nodes, and no two nodes share an identity.
use csyn.Common.{ℕ, ◌∷◌, [], List, true, any, All, All-map, ◌≡◌, refl, arith}
use csyn.Common.Text.{Text, list_eq, text_lt}
use csyn.Common.TextOrder.{list_eq_iff}
use csyn.Common.Map.{BTreeMap, get, values}
use csyn.Common.Map.Sorted.{IsSorted, IsAbove}
use csyn.Common.Result.{ok}
use csyn.Graph.State.{GraphState, elapsed_ms}
use csyn.Graph.Drawing.{GraphNode, Drawing, insert_node}
use csyn.Graph.Drawing.Growth.{
  contains_key, IsKeyed, IsLinked, IsDrawing, Anything, Draws-bind, insert_node-IsNode,
  insert_node-IsDrawing,
}
use csyn.Graph.Admin.{SerdeJson, parse_admin_entities}
use csyn.Graph.Admin.Inserted.{CanShorten}
use csyn.Graph.Admin.Drawn.{ArePayloadsDrawable, add_admin_topology-Draws}
use csyn.Graph.Snapshot.{GraphSnapshot, zenoh_node, add_topics, draw, snapshot, snapshot_of}
use csyn.Graph.Snapshot.Drawn.{add_topics-IsDrawing, add_entities-Draws}

-- One of the nodes has the identity `id`.
abbrev pub HasId : List GraphNode → Text → Type 0
HasId nodes id = any (λ node. list_eq node.id id) nodes ≡ true

-- Each node's identity is below those of the nodes behind it, so that no two are the same.
abbrev pub HaveOwnIds : List GraphNode → Type 0
HaveOwnIds [] = Unit
HaveOwnIds (node ∷ nodes) = All (λ other. text_lt node.id other.id ≡ true) nodes × HaveOwnIds nodes

abbrev pub IsConnected : GraphSnapshot → Type 0
IsConnected snap =
    HaveOwnIds snap.nodes
    × All (λ link. HasId snap.nodes link.source × HasId snap.nodes link.target) snap.links

IsNode-HasId :
    (id : Text) (nodes : BTreeMap GraphNode)
    → IsKeyed nodes
    → contains_key id nodes ≡ true
    → HasId (values nodes) id
unfolding get values
IsNode-HasId id [] k is = cc
IsNode-HasId id ((key, node) ∷ nodes) (e, k) is =
    ground (arith, list_eq_iff key id, list_eq_iff node.id id, IsNode-HasId id nodes k)

IsAbove-values :
    (node : GraphNode) (key : Text) (nodes : BTreeMap GraphNode)
    → node.id ≡ key
    → IsKeyed nodes
    → IsAbove key nodes
    → All (λ other. text_lt node.id other.id ≡ true) (values nodes)
unfolding values
IsAbove-values node key [] e k a = tt
IsAbove-values node key ((j, other) ∷ nodes) e (f, k) (b, a) =
    (rw (e, f) b, IsAbove-values node key nodes e k a)

HaveOwnIds-values :
    (nodes : BTreeMap GraphNode) → IsKeyed nodes → IsSorted nodes → HaveOwnIds (values nodes)
unfolding values
HaveOwnIds-values [] k s = tt
HaveOwnIds-values ((key, node) ∷ nodes) (e, k) (a, s) =
    (IsAbove-values node key nodes e k a, HaveOwnIds-values nodes k s)

module _ {Value Map : Type 0} (json : SerdeJson Value Map) (s : GraphState) where
  -- The identities in the admin space can be shortened for labels.
  abbrev pub IsAdminDrawable : Type 0
  IsAdminDrawable =
      ArePayloadsDrawable json (values s.admin_entries)
      × All (λ entity. CanShorten entity.zid) (parse_admin_entities s.admin_entries)

  draw-Draws :
      (now_ms : ℕ) → IsAdminDrawable → (d : Drawing) × (draw json s now_ms ≡ ok d) × IsDrawing d
  unfolding draw
  draw-Draws now_ms (payloads, entities) =
      let empty : Drawing = record { nodes = []; links = [] } in
      let node = zenoh_node s.connect in
      let first = insert_node node empty in
      let ready : IsDrawing first = insert_node-IsDrawing node empty (tt, tt, tt) in
      let (h, g) =
        add_topics-IsDrawing now_ms (values s.topics) first ready (insert_node-IsNode node empty) in
      let (d, e, h', g', q) =
        Draws-bind Anything Anything (add_topics now_ms (values s.topics) first) _ _
          (add_admin_topology-Draws json s.admin_entries (add_topics now_ms (values s.topics) first)
            payloads h)
          (λ d1 h1 g1 q1.
            add_entities-Draws (parse_admin_entities s.admin_entries) d1 entities h1) in
      (d, e, h')

  -- Where the identities in the admin space can be shortened, `snapshot` succeeds, every link joins two nodes, and no
  -- two nodes have the same identity.
  pub snapshot-IsConnected :
      (now : ℕ)
      → IsAdminDrawable
      → (snap : GraphSnapshot) × (snapshot json s now ≡ ok snap) × IsConnected snap
  unfolding snapshot
  snapshot-IsConnected now drawable =
      let (d, e, (sorted, keyed, linked)) = draw-Draws (elapsed_ms s.started now) drawable in
      (
        snapshot_of s (elapsed_ms s.started now) d,
        rw (snapshot, e) refl,
        (
          HaveOwnIds-values d.nodes keyed sorted,
          All-map (IsLinked d)
              (λ link. HasId (values d.nodes) link.source × HasId (values d.nodes) link.target)
              (λ link p. (
                IsNode-HasId link.source d.nodes keyed p.0,
                IsNode-HasId link.target d.nodes keyed p.1,
              ))
              d.links linked,
        ),
      )
