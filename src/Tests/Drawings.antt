-- ===== src/Tests/Drawings.antt =====
-- The snapshot of a small admin space, the one that the unit tests of rust/src/graph.rs use, over a JSON
-- parser that knows three texts.
use csyn.Common.{◌*◌, ◌^◌, List, [], ◌∷◌, Option, none, some, if◌then◌else◌, map, ◌≡◌, refl}
use csyn.Common.Text.{Text, codes, list_eq, text_lt, split, join, len, slice_to}
use csyn.Common.Map.{BTreeMap, get, insert, or_insert, keys, values}
use csyn.Common.Result.{Result, ok, err, panic}
use csyn.Graph.State.{GraphState, new, elapsed_ms}
use csyn.Graph.Drawing.{Drawing, insert_node, or_insert_node, push_link}
use csyn.Graph.Admin.{
  SerdeJson, admin_kind, admin_node_id, shorten, insert_admin_node, insert_zids, add_peer,
  entity_of, parse_admin_entities, string_field, array_field, session_links, session_detail,
  add_session, add_sessions, insert_self, insert_field, add_router, add_object, object_of,
  add_payloads, add_admin_topology,
}
use csyn.Graph.Snapshot.{GraphSnapshot, add_topics, draw, snapshot}
use csyn.Graph.Snapshot.Connected.{IsConnected, IsAdminDrawable, snapshot-IsConnected}

mutual
  pub data Value : Type 0 where
    string : Text → Value
    array : Values → Value
    object : Fields → Value

  pub data Values : Type 0 where
    nil : Values
    cons : Value → Values → Values

  pub data Fields : Type 0 where
    end : Fields
    field : Text → Value → Fields → Fields

abbrev elements : Values → List Value
elements nil = []
elements (cons v vs) = v ∷ elements vs

abbrev lookup : Fields → Text → Option Value
lookup end name = none
lookup (field key v fields) name = if list_eq key name then some v else lookup fields name

abbrev status : Value
status = object (
    field (codes "zid") (string (codes "router-zid")) (
      field (codes "whatami") (string (codes "router")) (
        field (codes "sessions")
          (array (
            cons
              (object (
                field (codes "peer") (string (codes "client-zid")) (
                  field (codes "whatami") (string (codes "client")) (
                    field (codes "region") (string (codes "south:0:client")) (
                      field (codes "links")
                        (array (
                          cons
                            (object (
                              field (codes "src") (string (codes "tcp/127.0.0.1:7447"))
                                (field (codes "dst") (string (codes "tcp/127.0.0.1:50000")) end)))
                            nil))
                        end)))))
              nil))
          end)))

-- A zid of seven ASCII characters and a character of two bytes.
abbrev odd_zid : Text
odd_zid = b'a' ∷ (b'a' ∷ (b'a' ∷ (b'a' ∷ (b'a' ∷ (b'a' ∷ (b'a' ∷ (0xE9 ∷ [])))))))

abbrev odd : Value
odd = object (field (codes "routers") (array (cons (string odd_zid) nil)) end)

abbrev pub json : SerdeJson Value Fields
json = record {
  from_str = λ text.
      if list_eq text (codes "status")
      then some status
      else if list_eq text (codes "odd")
      then some odd
      else if list_eq text (codes "{}")
      then some (object end)
      else none;
  as_str = λ v. elim v [ string text ↦ some text | _ ↦ none ];
  as_array = λ v. elim v [ array vs ↦ some (elements vs) | _ ↦ none ];
  as_object = λ v. elim v [ object fields ↦ some fields | _ ↦ none ];
  get_field = lookup;
}

abbrev pub started : GraphState
started = new (codes "tcp/127.0.0.1:7447") (codes "**") 0

abbrev subscriber_key : Text
subscriber_key = codes "@/abc/router/subscriber/synapse/manual_control/subscriber"

abbrev pub entries : BTreeMap Text
entries =
    (subscriber_key, codes "{}")
    ∷ ((codes "@/router/status", codes "status") ∷ ((codes "@/x", codes "not json") ∷ []))

abbrev pub state : GraphState
state = record started { admin_entries = entries }

-- `parses_admin_entity_keys`
entities_of_entries :
    parse_admin_entities entries
    ≡ record {
      zid = codes "abc";
      mode = codes "router";
      kind = codes "subscriber";
      expr = codes "synapse/manual_control";
    }
      ∷ []
unfolding parse_admin_entities entity_of split join keys list_eq
entities_of_entries = refl

-- `parses_admin_router_sessions`
abbrev drawn : Drawing → List Text × List Text
drawn d = (map (λ e. e.0) d.nodes, map (λ l. l.target) d.links)

abbrev drawn_result : Result Drawing → Option (List Text × List Text)
drawn_result (ok d) = some (drawn d)
drawn_result (err e) = none
drawn_result panic = none

topology_of_entries :
    drawn_result (add_admin_topology json entries (record { nodes = []; links = [] }))
    ≡ some (
      codes "client:client-zid" ∷ (codes "router:router-zid" ∷ []),
      codes "client:client-zid" ∷ [],
    )
unfolding add_admin_topology add_payloads object_of add_object add_router insert_field insert_self
    add_sessions add_session session_detail session_links array_field string_field add_peer
    insert_zids insert_admin_node shorten admin_node_id admin_kind or_insert_node push_link get
    insert or_insert values list_eq text_lt len slice_to join
topology_of_entries = refl

-- A zid whose eighth byte is inside a character stops the snapshot.
snapshot_odd_zid :
    snapshot json (record started { admin_entries = (codes "@/x", codes "odd") ∷ [] }) 0 ≡ panic
unfolding snapshot draw add_topics insert_node add_admin_topology add_payloads object_of add_object
    insert_field insert_self array_field string_field insert_zids insert_admin_node shorten
    admin_node_id admin_kind get insert values list_eq text_lt len slice_to elapsed_ms
snapshot_odd_zid = refl

pub drawable : IsAdminDrawable json state
unfolding object_of array_field string_field values shorten len slice_to list_eq
    parse_admin_entities entity_of split join keys
drawable = (
  (
    (tt, tt, tt, tt, tt),
    (
      (((codes "router-z...", refl), tt), tt, tt, tt, (((codes "client-z...", refl), tt), tt)),
      (tt, tt),
    ),
  ),
  ((codes "abc", refl), tt),
)

snapshot-IsConnected_example :
    (snap : GraphSnapshot) × (snapshot json state (5 * 10 ^ 9) ≡ ok snap) × IsConnected snap
snapshot-IsConnected_example = snapshot-IsConnected json state (5 * 10 ^ 9) drawable
