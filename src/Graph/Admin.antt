-- ===== src/Graph/Admin.antt =====
-- The part of rust/src/graph.rs that draws the Zenoh admin space. `serde_json` is a parameter: its
-- parser, and the accessors of its values.
pub mod Inserted
pub mod Drawn
pub mod Kept
use csyn.Common.{
  ℕ, ◌-◌, List, [], ◌∷◌, ◌++◌, false, not, ◌||◌, Option, none, some, ltb, leb, length, take, drop,
  filter_map, unwrap_or, if◌then◌else◌,
}
use csyn.Common.Text.{Text, codes, list_eq, split, join, len, slice_to}
use csyn.Common.Map.{BTreeMap, get, keys, values}
use csyn.Common.Result.{Result, ok, err, panic, ◌>>=◌, expect}
use csyn.Graph.Drawing.{GraphNode, Drawing, or_insert_node, push_link, quiet_node}

-- `serde_json`, with its types `Value` and `Map<String, Value>`.
pub record SerdeJson (Value Map : Type 0) : Type 0 where
  -- An error is dropped by the only caller.
  pub from_str : Text → Option Value
  pub as_str : Value → Option Text
  pub as_array : Value → Option (List Value)
  pub as_object : Value → Option Map
  pub get_field : Map → Text → Option Value

pub record AdminEntity : Type 0 where
  pub zid : Text
  pub mode : Text
  pub kind : Text
  pub expr : Text

abbrev pub and_then {ℓ κ} : {A : Type ℓ} {B : Type κ} → (A → Option B) → Option A → Option B
and_then f none = none
and_then f (some a) = f a

unfoldable pub admin_kind : Text → Text
admin_kind mode =
    if list_eq mode (codes "router")
      || (list_eq mode (codes "peer") || list_eq mode (codes "client"))
    then mode
    else codes "other"

unfoldable pub admin_node_id : Text → Text → Text
admin_node_id mode zid = admin_kind mode ++ (codes ":" ++ zid)

-- `shorten`; the slice panics off a character boundary.
unfoldable pub shorten : Text → ℕ → Result Text
shorten value limit =
    if leb (len value) limit
    then ok value
    else (do cut ← expect (slice_to limit value); ok (cut ++ codes "..."))

abbrev pub admin_node : (id kind short detail : Text) → GraphNode
admin_node id kind short detail = quiet_node id (kind ++ (codes " " ++ short)) kind detail false

-- `insert_admin_node`; the label is composed only where the entry is vacant.
unfoldable pub insert_admin_node : (id mode zid detail : Text) → Drawing → Result Drawing
insert_admin_node id mode zid detail d = elim (get id d.nodes) [
  | some node ↦ ok d
  | none ↦ do
    short ← shorten zid 8
    ok (or_insert_node (admin_node id (admin_kind mode) short detail) d)
]

unfoldable pub insert_zids : Text → List Text → Drawing → Result Drawing
insert_zids mode [] d = ok d
insert_zids mode (zid ∷ zids) d = do
  next ← insert_admin_node (admin_node_id mode zid) mode zid zid d
  insert_zids mode zids next

-- The node at the other end of a session, and the link to it.
unfoldable pub add_peer : (router_id mode region peer_zid detail : Text) → Drawing → Result Drawing
add_peer router_id mode region peer_zid detail d =
    let node_id = admin_node_id mode peer_zid in
    do
      next ← insert_admin_node node_id mode peer_zid detail d
      ok (
          push_link
            (record {
              source = router_id;
              target = node_id;
              label = if list_eq region [] then codes "session" else region;
              kind = codes "admin";
            })
            next)

-- `parts.first()`, `parts.get(1)?` and so on, on a key that has six parts at least.
unfoldable pub entity_of : List Text → Option AdminEntity
entity_of (at ∷ (zid ∷ (mode ∷ (kind ∷ rest)))) =
    let expr = join (codes "/") (take (length rest - 1) rest) in
    let last = drop (length rest - 1) rest in
    if ltb (length rest) 2 || not (list_eq at (codes "@"))
    then none
    else if not (list_eq (unwrap_or (first last) []) kind)
    then none
    else if list_eq expr []
    then none
    else some (record { zid = zid; mode = mode; kind = kind; expr = expr })
  where
    first : List Text → Option Text
    first [] = none
    first (p ∷ ps) = some p
entity_of _ = none

-- `parse_admin_entities`
unfoldable pub parse_admin_entities : BTreeMap Text → List AdminEntity
parse_admin_entities entries = filter_map (λ key. entity_of (split b'/' key)) (keys entries)

module _ {Value Map : Type 0} (json : SerdeJson Value Map) where
  unfoldable pub string_field : Map → Text → Option Text
  string_field object field = and_then json.as_str (json.get_field object field)

  -- `object.get(field).and_then(Value::as_array)`
  unfoldable pub array_field : Map → Text → Option (List Value)
  array_field object field = and_then json.as_array (json.get_field object field)

  abbrev pub rendered : Map → Option Text
  rendered link = elim (string_field link (codes "src")) [
    | none ↦ none
    | some src ↦ elim (string_field link (codes "dst")) [
      | none ↦ none
      | some dst ↦ some (src ++ (codes " -> " ++ dst))
    ]
  ]

  abbrev pub joined : List Text → Option Text
  joined [] = none
  joined (link ∷ links) = some (join (codes ", ") (link ∷ links))

  unfoldable pub session_links : Map → Option Text
  session_links session = elim (array_field session (codes "links")) [
    | none ↦ none
    | some links ↦ joined (filter_map rendered (filter_map json.as_object links))
  ]

  -- The detail of the node at the other end of a session.
  unfoldable pub session_detail : Map → (region peer_zid : Text) → Text
  session_detail session region peer_zid = elim (session_links session) [
    | some links ↦ if list_eq region [] then links else region ++ (codes "; " ++ links)
    | none ↦ if list_eq region [] then peer_zid else region
  ]

  -- One pass of the loop over the sessions.
  unfoldable pub add_session : Text → Map → Drawing → Result Drawing
  add_session router_id session d = elim (string_field session (codes "peer")) [
    | none ↦ ok d
    | some peer_zid ↦
        let mode = unwrap_or (string_field session (codes "whatami")) (codes "client") in
        let region = unwrap_or (string_field session (codes "region")) [] in
        add_peer router_id mode region peer_zid (session_detail session region peer_zid) d
  ]

  unfoldable pub add_sessions : Text → List Map → Drawing → Result Drawing
  add_sessions router_id [] d = ok d
  add_sessions router_id (session ∷ sessions) d = do
    next ← add_session router_id session d
    add_sessions router_id sessions next

  -- The `if let` on `zid` and `whatami`.
  unfoldable pub insert_self : Map → Drawing → Result Drawing
  insert_self object d = elim (string_field object (codes "zid")) [
    | none ↦ ok d
    | some zid ↦ elim (string_field object (codes "whatami")) [
      | none ↦ ok d
      | some whatami ↦ insert_admin_node (admin_node_id whatami zid) whatami zid zid d
    ]
  ]

  -- The `if let` on `routers`, `peers` or `clients`.
  unfoldable pub insert_field : Map → (field mode : Text) → Drawing → Result Drawing
  insert_field object field mode d = elim (array_field object field) [
    | none ↦ ok d
    | some zids ↦ insert_zids mode (filter_map json.as_str zids) d
  ]

  -- What follows the lists: the sessions of the router that the entry describes.
  unfoldable pub add_router : Map → Drawing → Result Drawing
  add_router object d = elim (string_field object (codes "zid")) [
    | none ↦ ok d
    | some router_zid ↦ elim (array_field object (codes "sessions")) [
      | none ↦ ok d
      | some sessions ↦
          let router_id = admin_node_id (codes "router") router_zid in
          do
            next ← insert_admin_node router_id (codes "router") router_zid router_zid d
            add_sessions router_id (filter_map json.as_object sessions) next
    ]
  ]

  unfoldable pub add_object : Map → Drawing → Result Drawing
  add_object object d = do
    d1 ← insert_self object d
    d2 ← insert_field object (codes "routers") (codes "router") d1
    d3 ← insert_field object (codes "peers") (codes "peer") d2
    d4 ← insert_field object (codes "clients") (codes "client") d3
    add_router object d4

  -- The object that a payload holds, if it is one.
  unfoldable pub object_of : Text → Option Map
  object_of payload = and_then json.as_object (json.from_str payload)

  unfoldable pub add_payloads : List Text → Drawing → Result Drawing
  add_payloads [] d = ok d
  add_payloads (payload ∷ payloads) d = elim (object_of payload) [
    | none ↦ add_payloads payloads d
    | some object ↦ do next ← add_object object d; add_payloads payloads next
  ]

  -- `add_admin_topology`
  unfoldable pub add_admin_topology : BTreeMap Text → Drawing → Result Drawing
  add_admin_topology entries d = add_payloads (values entries) d
