-- ===== src/Graph/Admin/Kept.antt =====
-- Drawing the admin space changes no node and no link that is there.
use csyn.Common.{List, [], ◌∷◌, filter_map, Option-cases, inl, inr}
use csyn.Common.Text.{Text, codes}
use csyn.Common.Map.{BTreeMap, get, values}
use csyn.Common.Result.{Result-cases, is_ok, is_err, is_panic}
use csyn.Graph.Drawing.{Drawing}
use csyn.Graph.Drawing.Kept.{
  Keeping, Keeps-refl, Keeping-bind, or_insert_node-Keeps, push_link-Keeps,
}
use csyn.Graph.Admin.{
  SerdeJson, admin_kind, admin_node_id, admin_node, shorten, insert_admin_node, insert_zids,
  string_field, array_field, add_peer, add_session, add_sessions, insert_self, insert_field,
  add_router, add_object, object_of, add_payloads, add_admin_topology,
}

pub insert_admin_node-Keeping :
    (id mode zid detail : Text) (d : Drawing) → Keeping d (insert_admin_node id mode zid detail d)
unfolding insert_admin_node
insert_admin_node-Keeping id mode zid detail d = elim (Option-cases (get id d.nodes)) [
  | inr (n, f) ↦ rw (insert_admin_node, f) (Keeps-refl d)
  | inl f ↦ elim (Result-cases (shorten zid 8)) [
    | is_err x e ↦ rw (insert_admin_node, f, e) tt
    | is_panic e ↦ rw (insert_admin_node, f, e) tt
    | is_ok short e ↦
        rw (insert_admin_node, f, e)
          (or_insert_node-Keeps (admin_node id (admin_kind mode) short detail) d)
  ]
]

insert_zids-Keeping :
    (mode : Text) (zids : List Text) (d : Drawing) → Keeping d (insert_zids mode zids d)
unfolding insert_zids
insert_zids-Keeping mode [] d = Keeps-refl d
insert_zids-Keeping mode (zid ∷ zids) d =
    Keeping-bind d (insert_admin_node (admin_node_id mode zid) mode zid zid d)
      (insert_zids mode zids) (insert_admin_node-Keeping (admin_node_id mode zid) mode zid zid d)
      (insert_zids-Keeping mode zids)

add_peer-Keeping :
    (router_id mode region zid detail : Text) (d : Drawing)
    → Keeping d (add_peer router_id mode region zid detail d)
unfolding add_peer
add_peer-Keeping router_id mode region zid detail d =
    Keeping-bind d (insert_admin_node (admin_node_id mode zid) mode zid detail d) _
      (insert_admin_node-Keeping (admin_node_id mode zid) mode zid detail d)
      (λ d'. push_link-Keeps _ d')

module _ {Value Map : Type 0} (json : SerdeJson Value Map) where
  insert_self-Keeping : (object : Map) (d : Drawing) → Keeping d (insert_self json object d)
  unfolding insert_self
  insert_self-Keeping object d = elim (Option-cases (string_field json object (codes "zid"))) [
    | inl e ↦ rw (insert_self, e) (Keeps-refl d)
    | inr (zid, e) ↦ elim (Option-cases (string_field json object (codes "whatami"))) [
      | inl f ↦ rw (insert_self, e, f) (Keeps-refl d)
      | inr (whatami, f) ↦
          rw (insert_self, e, f)
            (insert_admin_node-Keeping (admin_node_id whatami zid) whatami zid zid d)
    ]
  ]

  insert_field-Keeping :
      (object : Map) (field mode : Text) (d : Drawing)
      → Keeping d (insert_field json object field mode d)
  unfolding insert_field
  insert_field-Keeping object field mode d = elim (Option-cases (array_field json object field)) [
    | inl e ↦ rw (insert_field, e) (Keeps-refl d)
    | inr (zids, e) ↦
        rw (insert_field, e) (insert_zids-Keeping mode (filter_map json.as_str zids) d)
  ]

  add_session-Keeping :
      (router_id : Text) (session : Map) (d : Drawing)
      → Keeping d (add_session json router_id session d)
  unfolding add_session
  add_session-Keeping router_id session d =
      elim (Option-cases (string_field json session (codes "peer"))) [
        | inl e ↦ rw (add_session, e) (Keeps-refl d)
        | inr (zid, e) ↦ rw (add_session, e) (add_peer-Keeping router_id _ _ zid _ d)
      ]

  add_sessions-Keeping :
      (router_id : Text) (sessions : List Map) (d : Drawing)
      → Keeping d (add_sessions json router_id sessions d)
  unfolding add_sessions
  add_sessions-Keeping router_id [] d = Keeps-refl d
  add_sessions-Keeping router_id (session ∷ sessions) d =
      Keeping-bind d (add_session json router_id session d) _
        (add_session-Keeping router_id session d) (add_sessions-Keeping router_id sessions)

  add_router-Keeping : (object : Map) (d : Drawing) → Keeping d (add_router json object d)
  unfolding add_router
  add_router-Keeping object d = elim (Option-cases (string_field json object (codes "zid"))) [
    | inl e ↦ rw (add_router, e) (Keeps-refl d)
    | inr (zid, e) ↦ elim (Option-cases (array_field json object (codes "sessions"))) [
      | inl f ↦ rw (add_router, e, f) (Keeps-refl d)
      | inr (sessions, f) ↦
          let router = codes "router" in
          let id = admin_node_id router zid in
          rw (add_router, e, f)
            (Keeping-bind d (insert_admin_node id router zid zid d) _
              (insert_admin_node-Keeping id router zid zid d)
              (add_sessions-Keeping id (filter_map json.as_object sessions)))
    ]
  ]

  add_object-Keeping : (object : Map) (d : Drawing) → Keeping d (add_object json object d)
  unfolding add_object
  add_object-Keeping object d =
      Keeping-bind d (insert_self json object d) _ (insert_self-Keeping object d) λ d1.
        Keeping-bind d1 (insert_field json object (codes "routers") (codes "router") d1) _
          (insert_field-Keeping object (codes "routers") (codes "router") d1)
          λ d2.
            Keeping-bind d2 (insert_field json object (codes "peers") (codes "peer") d2) _
              (insert_field-Keeping object (codes "peers") (codes "peer") d2)
              λ d3.
                Keeping-bind d3 (insert_field json object (codes "clients") (codes "client") d3) _
                  (insert_field-Keeping object (codes "clients") (codes "client") d3)
                  (add_router-Keeping object)

  add_payloads-Keeping :
      (payloads : List Text) (d : Drawing) → Keeping d (add_payloads json payloads d)
  unfolding add_payloads
  add_payloads-Keeping [] d = Keeps-refl d
  add_payloads-Keeping (payload ∷ payloads) d = elim (Option-cases (object_of json payload)) [
    | inl e ↦ rw (add_payloads, e) (add_payloads-Keeping payloads d)
    | inr (object, e) ↦
        rw (add_payloads, e)
          (Keeping-bind d (add_object json object d) _ (add_object-Keeping object d)
            (add_payloads-Keeping payloads))
  ]

  pub add_admin_topology-Keeping :
      (entries : BTreeMap Text) (d : Drawing) → Keeping d (add_admin_topology json entries d)
  unfolding add_admin_topology
  add_admin_topology-Keeping entries d = add_payloads-Keeping (values entries) d
