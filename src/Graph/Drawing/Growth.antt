-- ===== src/Graph/Drawing/Growth.antt =====
-- How a drawing grows: nodes stay, and links are only drawn between nodes.
use csyn.Common.{
  List, [], ◌∷◌, Bool, true, false, none, some, ◌≡◌, refl, arith, All, All-map, All-append,
}
use csyn.Common.Text.{Text}
use csyn.Common.TextOrder.{list_eq_refl}
use csyn.Common.Map.{BTreeMap, get, insert, or_insert}
use csyn.Common.Map.Laws.{get-insert, get-or_insert}
use csyn.Common.Map.Sorted.{IsSorted, insert-IsSorted, or_insert-IsSorted}
use csyn.Common.Result.{Result, ok, ◌>>=◌}
use csyn.Graph.Drawing.{GraphNode, GraphLink, Drawing, insert_node, or_insert_node, push_link}

abbrev pub contains_key {ℓ} : {V : Type ℓ} → Text → BTreeMap V → Bool
contains_key key m = elim (get key m) [ none ↦ false | some v ↦ true ]

-- A node of the drawing has the identity `id`.
abbrev pub IsNode : Drawing → Text → Type 0
IsNode d id = contains_key id d.nodes ≡ true

-- Each node is kept under its identity.
abbrev pub IsKeyed : BTreeMap GraphNode → Type 0
IsKeyed nodes = All (λ e. e.1.id ≡ e.0) nodes

abbrev pub IsLinked : Drawing → GraphLink → Type 0
IsLinked d link = IsNode d link.source × IsNode d link.target

abbrev pub IsDrawing : Drawing → Type 0
IsDrawing d = IsSorted d.nodes × IsKeyed d.nodes × All (IsLinked d) d.links

-- Every node of the first drawing is one of the second.
abbrev pub Grows : Drawing → Drawing → Type 0
Grows d d' = (id : Text) → IsNode d id → IsNode d' id

-- The result is a drawing that has the nodes of `d` and those that `Q` asks for.
abbrev pub Draws : (Q : Drawing → Type 0) → Drawing → Result Drawing → Type 0
Draws Q d r = (d' : Drawing) × (r ≡ ok d') × IsDrawing d' × Grows d d' × Q d'

abbrev pub Anything : Drawing → Type 0
Anything d = Unit

pub Draws-ok : (d : Drawing) → IsDrawing d → Draws Anything d (ok d)
Draws-ok d h = (d, refl, h, (λ id is. is), tt)

pub Draws-forget :
    (P : Drawing → Type 0) (d : Drawing) (r : Result Drawing) → Draws P d r → Draws Anything d r
Draws-forget P d r (d', e, h, g, p) = (d', e, h, g, tt)

pub Draws-bind :
    (P Q : Drawing → Type 0) (d : Drawing) (r : Result Drawing) (f : Drawing → Result Drawing)
    → Draws P d r
    → ((d' : Drawing) → IsDrawing d' → Grows d d' → P d' → Draws Q d' (f d'))
    → Draws Q d (r >>= f)
Draws-bind P Q d r f (d', e, h, g, p) k =
    let (d'', e', h', g', q) = k d' h g p in (d'', rw e e', h', (λ id is. g' id (g id is)), q)

links_grow :
    (d d' : Drawing) (links : List GraphLink)
    → Grows d d'
    → All (IsLinked d) links
    → All (IsLinked d') links
links_grow d d' links g h =
    All-map (IsLinked d) (IsLinked d') (λ l p. (g l.source p.0, g l.target p.1)) links h

insert-IsKeyed :
    (node : GraphNode) (nodes : BTreeMap GraphNode)
    → IsKeyed nodes
    → IsKeyed (insert node.id node nodes)
unfolding insert
insert-IsKeyed node [] h = (refl, tt)
insert-IsKeyed node ((k, n) ∷ nodes) (e, h) = ground (arith, insert-IsKeyed node nodes h)

or_insert-IsKeyed :
    (node : GraphNode) (nodes : BTreeMap GraphNode)
    → IsKeyed nodes
    → IsKeyed (or_insert node.id node nodes)
unfolding or_insert
or_insert-IsKeyed node nodes h = ground (arith, insert-IsKeyed node nodes h)

pub insert_node-Grows : (node : GraphNode) (d : Drawing) → Grows d (insert_node node d)
unfolding insert_node
insert_node-Grows node d id is = ground (arith, get-insert id node.id node d.nodes)

pub insert_node-IsNode : (node : GraphNode) (d : Drawing) → IsNode (insert_node node d) node.id
unfolding insert_node
insert_node-IsNode node d =
    ground (arith, get-insert node.id node.id node d.nodes, list_eq_refl node.id)

pub insert_node-IsDrawing :
    (node : GraphNode) (d : Drawing) → IsDrawing d → IsDrawing (insert_node node d)
unfolding insert_node
insert_node-IsDrawing node d (s, k, l) = (
  insert-IsSorted node.id node d.nodes s,
  insert-IsKeyed node d.nodes k,
  links_grow d (insert_node node d) d.links (insert_node-Grows node d) l,
)

pub or_insert_node-Grows : (node : GraphNode) (d : Drawing) → Grows d (or_insert_node node d)
unfolding or_insert_node
or_insert_node-Grows node d id is = ground (arith, get-or_insert id node.id node d.nodes)

pub or_insert_node-IsNode :
    (node : GraphNode) (d : Drawing) → IsNode (or_insert_node node d) node.id
unfolding or_insert_node
or_insert_node-IsNode node d =
    ground (arith, get-or_insert node.id node.id node d.nodes, list_eq_refl node.id)

pub or_insert_node-IsDrawing :
    (node : GraphNode) (d : Drawing) → IsDrawing d → IsDrawing (or_insert_node node d)
unfolding or_insert_node
or_insert_node-IsDrawing node d (s, k, l) = (
  or_insert-IsSorted node.id node d.nodes s,
  or_insert-IsKeyed node d.nodes k,
  links_grow d (or_insert_node node d) d.links (or_insert_node-Grows node d) l,
)

pub push_link-IsDrawing :
    (link : GraphLink) (d : Drawing) → IsDrawing d → IsLinked d link → IsDrawing (push_link link d)
unfolding push_link
push_link-IsDrawing link d (s, k, l) p =
    (s, k, All-append (IsLinked d) d.links (link ∷ []) l (p, tt))

pub push_link-Grows : (link : GraphLink) (d : Drawing) → Grows d (push_link link d)
unfolding push_link
push_link-Grows link d id is = is

-- A link from a node that was there to one that has been drawn.
pub push_link-Draws :
    (link : GraphLink) (d : Drawing) (r : Result Drawing)
    → IsNode d link.source
    → Draws (λ d'. IsNode d' link.target) d r
    → Draws Anything d (r >>= λ next. ok (push_link link next))
push_link-Draws link d r is p =
    let f = λ (next : Drawing). ok (push_link link next) in
    Draws-bind (λ d'. IsNode d' link.target) Anything d r f p
      (λ d' h g q. (
        push_link link d',
        refl,
        push_link-IsDrawing link d' h (g link.source is, q),
        push_link-Grows link d',
        tt,
      ))
