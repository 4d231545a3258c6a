-- ===== src/Graph/Admin/Inserted.antt =====
-- Putting in the nodes of the admin space succeeds when their identities can be shortened for a label.
use csyn.Common.{List, [], ◌∷◌, ◌≡◌, refl, All, Option-cases, inl, inr}
use csyn.Common.Text.{Text}
use csyn.Common.Map.{get}
use csyn.Common.Result.{ok}
use csyn.Graph.Drawing.{Drawing, or_insert_node}
use csyn.Graph.Drawing.Growth.{
  contains_key, IsNode, IsDrawing, Draws, Anything, Draws-ok, Draws-bind, or_insert_node-Grows,
  or_insert_node-IsNode, or_insert_node-IsDrawing, push_link-Draws,
}
use csyn.Graph.Admin.{
  admin_kind, admin_node_id, admin_node, shorten, insert_admin_node, insert_zids, add_peer,
}

-- The identity has at most eight bytes, or a character ends with its eighth byte.
abbrev pub CanShorten : Text → Type 0
CanShorten zid = (short : Text) × (shorten zid 8 ≡ ok short)

abbrev pub HasNode : Text → Drawing → Type 0
HasNode id d = IsNode d id

pub insert_admin_node-Draws :
    (id mode zid detail : Text) (d : Drawing)
    → CanShorten zid
    → IsDrawing d
    → Draws (HasNode id) d (insert_admin_node id mode zid detail d)
unfolding insert_admin_node
insert_admin_node-Draws id mode zid detail d (short, e) h = elim (Option-cases (get id d.nodes)) [
  | inl f ↦
      let node = admin_node id (admin_kind mode) short detail in
      (
        or_insert_node node d,
        rw (insert_admin_node, f, e),
        or_insert_node-IsDrawing node d h,
        or_insert_node-Grows node d,
        or_insert_node-IsNode node d,
      )
  | inr (n, f) ↦ (d, rw (insert_admin_node, f), h, (λ i is. is), rw (contains_key, f) refl)
]

pub insert_zids-Draws :
    (mode : Text) (zids : List Text) (d : Drawing)
    → All CanShorten zids
    → IsDrawing d
    → Draws Anything d (insert_zids mode zids d)
unfolding insert_zids
insert_zids-Draws mode [] d a h = Draws-ok d h
insert_zids-Draws mode (zid ∷ zids) d (s, a) h =
    let id = admin_node_id mode zid in
    Draws-bind (HasNode id) Anything d (insert_admin_node id mode zid zid d) (insert_zids mode zids)
      (insert_admin_node-Draws id mode zid zid d s h)
      (λ d' h' g is. insert_zids-Draws mode zids d' a h')

pub add_peer-Draws :
    (router_id mode region zid detail : Text) (d : Drawing)
    → CanShorten zid
    → IsDrawing d
    → IsNode d router_id
    → Draws Anything d (add_peer router_id mode region zid detail d)
unfolding add_peer
add_peer-Draws router_id mode region zid detail d s h is =
    push_link-Draws _ d _ is
      (insert_admin_node-Draws (admin_node_id mode zid) mode zid detail d s h)
