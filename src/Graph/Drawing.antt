-- ===== src/Graph/Drawing.antt =====
-- `GraphNode` and `GraphLink` of rust/src/graph.rs, and the maps and vectors of them that a snapshot is built
-- in. A rate is an `f64` got by a division by 5.0; here it is a number of fifths of a hertz.
pub mod Growth
pub mod Kept
use csyn.Common.{ℕ, List, [], ◌∷◌, ◌++◌, Bool}
use csyn.Common.Text.{Text}
use csyn.Common.Map.{BTreeMap, insert, or_insert}

pub record GraphNode : Type 0 where
  pub id : Text
  pub label : Text
  pub kind : Text
  pub detail : Text
  pub messages : ℕ
  pub bytes : ℕ
  pub rate_hz : ℕ
  pub stale : Bool

pub record GraphLink : Type 0 where
  pub source : Text
  pub target : Text
  pub label : Text
  pub kind : Text

-- The locals `nodes` and `links` of `snapshot`.
pub record Drawing : Type 0 where
  pub nodes : BTreeMap GraphNode
  pub links : List GraphLink

-- `nodes.insert(…)` under the id of the node
unfoldable pub insert_node : GraphNode → Drawing → Drawing
insert_node node d = record d { nodes = insert node.id node d.nodes }

-- `nodes.entry(…).or_insert_with(…)` under the id of the node
unfoldable pub or_insert_node : GraphNode → Drawing → Drawing
or_insert_node node d = record d { nodes = or_insert node.id node d.nodes }

-- `links.push(…)`
unfoldable pub push_link : GraphLink → Drawing → Drawing
push_link link d = record d { links = d.links ++ (link ∷ []) }

-- A node that has carried no traffic.
abbrev pub quiet_node : (id label kind detail : Text) → Bool → GraphNode
quiet_node id label kind detail stale = record {
  id = id;
  label = label;
  kind = kind;
  detail = detail;
  messages = 0;
  bytes = 0;
  rate_hz = 0;
  stale = stale;
}
