-- ===== src/Graph/Admin/Drawn.antt =====
-- Drawing the admin space succeeds when the identities in it can be shortened for a label.
use csyn.Common.{List, [], ◌∷◌, Option, none, some, All, filter_map, Option-cases, inl, inr}
use mathlib.Core.Path.{subst}
use csyn.Common.Text.{Text, codes}
use csyn.Common.Map.{BTreeMap, values}
use csyn.Graph.Drawing.{Drawing}
use csyn.Graph.Drawing.Growth.{
  IsNode, IsDrawing, Draws, Anything, Draws-ok, Draws-bind, Draws-forget,
}
use csyn.Graph.Admin.{
  SerdeJson, admin_node_id, insert_admin_node, string_field, array_field, add_session, add_sessions,
  insert_self, insert_field, add_router, add_object, object_of, add_payloads, add_admin_topology,
}
use csyn.Graph.Admin.Inserted.{
  CanShorten, HasNode, insert_admin_node-Draws, insert_zids-Draws, add_peer-Draws,
}

abbrev to_list {ℓ} : {A : Type ℓ} → Option A → List A
to_list none = []
to_list (some a) = a ∷ []

abbrev flatten {ℓ} : {A : Type ℓ} → Option (List A) → List A
flatten none = []
flatten (some xs) = xs

module _ {Value Map : Type 0} (json : SerdeJson Value Map) where
  -- The identities that a list of an object holds.
  abbrev pub listed : Map → Text → List Text
  listed object field = filter_map json.as_str (flatten (array_field json object field))

  -- The sessions that an object holds.
  abbrev pub sessions_of : Map → List Map
  sessions_of object =
      filter_map json.as_object (flatten (array_field json object (codes "sessions")))

  abbrev pub own_zid : Map → List Text
  own_zid object = to_list (string_field json object (codes "zid"))

  abbrev pub peer_zid : Map → List Text
  peer_zid session = to_list (string_field json session (codes "peer"))

  -- Every identity in the object can be shortened: its own, those of its three lists, and those at the other ends of its
  -- sessions.
  abbrev pub IsDrawable : Map → Type 0
  IsDrawable object =
      All CanShorten (own_zid object)
      × All CanShorten (listed object (codes "routers"))
      × All CanShorten (listed object (codes "peers"))
      × All CanShorten (listed object (codes "clients"))
      × All (λ session. All CanShorten (peer_zid session)) (sessions_of object)

  abbrev pub IsReadable : Option Map → Type 0
  IsReadable none = Unit
  IsReadable (some object) = IsDrawable object

  -- The same for the payloads that are JSON objects; the others are passed over.
  abbrev pub ArePayloadsDrawable : List Text → Type 0
  ArePayloadsDrawable payloads = All (λ payload. IsReadable (object_of json payload)) payloads

  insert_self-Draws :
      (object : Map) (d : Drawing)
      → All CanShorten (own_zid object)
      → IsDrawing d
      → Draws Anything d (insert_self json object d)
  unfolding insert_self
  insert_self-Draws object d a h = elim (Option-cases (string_field json object (codes "zid"))) [
    | inl e ↦ rw (insert_self, e) (Draws-ok d h)
    | inr (zid, e) ↦ elim (Option-cases (string_field json object (codes "whatami"))) [
      | inl f ↦ rw (insert_self, e, f) (Draws-ok d h)
      | inr (whatami, f) ↦
          let id = admin_node_id whatami zid in
          let can : All CanShorten (to_list (some zid)) =
            subst (λ o. All CanShorten (to_list o)) e a in
          rw (insert_self, e, f)
            (Draws-forget (HasNode id) d (insert_admin_node id whatami zid zid d)
              (insert_admin_node-Draws id whatami zid zid d can.0 h))
    ]
  ]

  insert_field-Draws :
      (object : Map) (field mode : Text) (d : Drawing)
      → All CanShorten (listed object field)
      → IsDrawing d
      → Draws Anything d (insert_field json object field mode d)
  unfolding insert_field
  insert_field-Draws object field mode d a h = elim (Option-cases (array_field json object field)) [
    | inl e ↦ rw (insert_field, e) (Draws-ok d h)
    | inr (zids, e) ↦
        let can : All CanShorten (filter_map json.as_str zids) =
          subst (λ o. All CanShorten (filter_map json.as_str (flatten o))) e a in
        rw (insert_field, e) (insert_zids-Draws mode (filter_map json.as_str zids) d can h)
  ]

  add_session-Draws :
      (router_id : Text) (session : Map) (d : Drawing)
      → All CanShorten (peer_zid session)
      → IsDrawing d
      → IsNode d router_id
      → Draws Anything d (add_session json router_id session d)
  unfolding add_session
  add_session-Draws router_id session d a h is =
      elim (Option-cases (string_field json session (codes "peer"))) [
        | inl e ↦ rw (add_session, e) (Draws-ok d h)
        | inr (zid, e) ↦
            let can : All CanShorten (to_list (some zid)) =
              subst (λ o. All CanShorten (to_list o)) e a in
            rw (add_session, e) (add_peer-Draws router_id _ _ zid _ d can.0 h is)
      ]

  add_sessions-Draws :
      (router_id : Text) (sessions : List Map) (d : Drawing)
      → All (λ session. All CanShorten (peer_zid session)) sessions
      → IsDrawing d
      → IsNode d router_id
      → Draws Anything d (add_sessions json router_id sessions d)
  unfolding add_sessions
  add_sessions-Draws router_id [] d a h is = Draws-ok d h
  add_sessions-Draws router_id (session ∷ sessions) d (s, a) h is =
      Draws-bind Anything Anything d _ _ (add_session-Draws router_id session d s h is)
        (λ d' h' g q. add_sessions-Draws router_id sessions d' a h' (g router_id is))

  add_router-Draws :
      (object : Map) (d : Drawing)
      → All CanShorten (own_zid object)
      → All (λ session. All CanShorten (peer_zid session)) (sessions_of object)
      → IsDrawing d
      → Draws Anything d (add_router json object d)
  unfolding add_router
  add_router-Draws object d a b h = elim (Option-cases (string_field json object (codes "zid"))) [
    | inl e ↦ rw (add_router, e) (Draws-ok d h)
    | inr (zid, e) ↦ elim (Option-cases (array_field json object (codes "sessions"))) [
      | inl f ↦ rw (add_router, e, f) (Draws-ok d h)
      | inr (sessions, f) ↦
          let router = codes "router" in
          let id = admin_node_id router zid in
          let can : All CanShorten (to_list (some zid)) =
            subst (λ o. All CanShorten (to_list o)) e a in
          let ready : All (λ session. All CanShorten (peer_zid session))
              (filter_map json.as_object sessions) =
            subst
              (λ o.
                All (λ session. All CanShorten (peer_zid session))
                  (filter_map json.as_object (flatten o)))
              f b in
          rw (add_router, e, f)
            (Draws-bind (HasNode id) Anything d _ _
              (insert_admin_node-Draws id router zid zid d can.0 h)
              (λ d' h' g is.
                add_sessions-Draws id (filter_map json.as_object sessions) d' ready h' is))
    ]
  ]

  add_object-Draws :
      (object : Map) (d : Drawing)
      → IsDrawable object
      → IsDrawing d
      → Draws Anything d (add_object json object d)
  unfolding add_object
  add_object-Draws object d (own, routers, peers, clients, sessions) h =
      Draws-bind Anything Anything d _ _ (insert_self-Draws object d own h) (λ d1 h1 g1 q1.
        Draws-bind Anything Anything d1 _ _
          (insert_field-Draws object (codes "routers") (codes "router") d1 routers h1)
          (λ d2 h2 g2 q2.
            Draws-bind Anything Anything d2 _ _
              (insert_field-Draws object (codes "peers") (codes "peer") d2 peers h2)
              (λ d3 h3 g3 q3.
                Draws-bind Anything Anything d3 _ _
                  (insert_field-Draws object (codes "clients") (codes "client") d3 clients h3)
                  (λ d4 h4 g4 q4. add_router-Draws object d4 own sessions h4))))

  add_payloads-Draws :
      (payloads : List Text) (d : Drawing)
      → ArePayloadsDrawable payloads
      → IsDrawing d
      → Draws Anything d (add_payloads json payloads d)
  unfolding add_payloads
  add_payloads-Draws [] d a h = Draws-ok d h
  add_payloads-Draws (payload ∷ payloads) d (s, a) h =
      elim (Option-cases (object_of json payload)) [
        | inl e ↦ rw (add_payloads, e) (add_payloads-Draws payloads d a h)
        | inr (object, e) ↦
            rw (add_payloads, e)
              (Draws-bind Anything Anything d _ _
                (add_object-Draws object d (subst IsReadable e s) h)
                (λ d' h' g q. add_payloads-Draws payloads d' a h'))
      ]

  -- Over entries whose identities can be shortened the drawing of the admin space succeeds.
  pub add_admin_topology-Draws :
      (entries : BTreeMap Text) (d : Drawing)
      → ArePayloadsDrawable (values entries)
      → IsDrawing d
      → Draws Anything d (add_admin_topology json entries d)
  unfolding add_admin_topology
  add_admin_topology-Draws entries d a h = add_payloads-Draws (values entries) d a h
