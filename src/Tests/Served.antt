-- ===== src/Tests/Served.antt =====
-- The threads of the graph server, in one order, and its answers.
use csyn.Common.{none, ◌*◌, ◌^◌, [], ◌∷◌, ◌++◌, Option, some, ◌≡◌, refl}
use csyn.Common.Text.{Text, codes, list_eq, text_lt, starts_with, split, len, slice_to}
use csyn.Common.Map.{get, insert, keys, values}
use csyn.Common.Bytes.{Bytes}
use csyn.Common.Result.{Result, Error, ok, panic}
use csyn.ContractWarning.{default}
use csyn.Graph.State.{GraphState, elapsed_ms}
use csyn.Graph.Drawing.{insert_node}
use csyn.Graph.Admin.{
  admin_kind, admin_node_id, shorten, insert_admin_node, insert_zids, string_field, array_field,
  insert_self, insert_field, add_object, object_of, add_payloads, add_admin_topology,
  parse_admin_entities,
}
use csyn.Graph.Snapshot.{GraphSnapshot, add_topics, draw, snapshot}
use csyn.Graph.Snapshot.Connected.{IsConnected, IsAdminDrawable}
use csyn.Graph.Http.{
  available, poisoned, Pages, Response, is_whitespace, first_line, skip_space, word, behind_word,
  word_or, method_of, path_of, route_of, graph_response, respond, response_to, handle_connection,
}
use csyn.Graph.Serve.{
  System, running, Observation, observed, Polled, replies, replied, collect, observe, poll_admin,
  observes, polls, answers, Reach, here, next, serve,
}
use csyn.Graph.Serve.Kept.{Holds}
use csyn.Graph.Serve.Tracked.{IsTracked, Reach-IsTracked}
use csyn.Graph.Serve.Lock.{HasDrawableReplies, Reach-answers}
use csyn.Graph.Serve.Dead.{IsGraphRequest, IsDead, Reach-IsDead}
use csyn.Tests.Catalog.{catalog, attitude, encode}
use csyn.Tests.Drawings.{json, started, drawable}

abbrev pub pages : Pages
pages = record {
  html = codes "<html>";
  js = codes "run()";
  from_utf8_lossy = λ bytes. bytes;
  to_vec = λ snap. ok (codes "{}");
}

abbrev pub display : Error → Text
display e = codes "rejected"

abbrev answer : Text → Result (Option Response)
answer request = (response_to json pages (ok request) (available started) 0).0

not_found :
    answer (codes "GET  /missing?x=/ HTTP/1.1" ++ (13 ∷ 10 ∷ codes "GET / HTTP/1.1"))
    ≡ ok (
        some (record {
          status = codes "404 Not Found";
          content_type = codes "text/plain; charset=utf-8";
          body = codes "not found";
        }))
unfolding response_to respond first_line skip_space word behind_word word_or method_of path_of
    route_of is_whitespace starts_with split list_eq
not_found = refl

script :
    answer (codes "GET /app.js?v=1 HTTP/1.1")
    ≡ ok (
        some (record {
          status = codes "200 OK";
          content_type = codes "application/javascript; charset=utf-8";
          body = codes "run()";
        }))
unfolding response_to respond first_line skip_space word behind_word word_or method_of path_of
    route_of is_whitespace starts_with split list_eq
script = refl

refused :
    answer (codes "POST / HTTP/1.1")
    ≡ ok (
        some (record {
          status = codes "405 Method Not Allowed";
          content_type = codes "text/plain; charset=utf-8";
          body = codes "method not allowed";
        }))
unfolding response_to respond first_line skip_space word behind_word word_or method_of path_of
    route_of is_whitespace starts_with split list_eq
refused = refl

abbrev pub sample : Observation
sample = observed (record {
  key = codes "cub1/att";
  encoding = encode attitude;
  payload = 1 ∷ 2 ∷ 3 ∷ [];
  now = 4 * 10 ^ 9;
})

abbrev query : Polled
query =
    replies
      (replied (codes "@/x") (codes "not json")
        ∷ (replied (codes "@/router/status") (codes "status")
            ∷ (replied (codes "@/abc/router/subscriber/synapse/manual_control/subscriber")
                  (codes "{}")
                ∷ [])))
      (5 * 10 ^ 9)

abbrev observed_system : System
observed_system = record {
  shared = (observe catalog display sample default (available started)).1;
  observer = (observe catalog display sample default (available started)).0;
  poller = running tt;
}

abbrev polled_system : System
polled_system = record {
  shared = (poll_admin pages.from_utf8_lossy query observed_system.shared).1;
  observer = observed_system.observer;
  poller = (poll_admin pages.from_utf8_lossy query observed_system.shared).0;
}

abbrev answered_system : System
answered_system = record polled_system {
  shared =
      (response_to json pages (ok (codes "GET /api/graph")) polled_system.shared (6 * 10 ^ 9)).1;
}

query_is_drawable : HasDrawableReplies json pages catalog display started query
unfolding collect insert list_eq text_lt elapsed_ms
query_is_drawable = drawable

reached :
    Reach json pages catalog display
      (HasDrawableReplies json pages catalog display started)
      (serve started)
      answered_system
unfolding serve
reached =
    next
      (next (next here (observes (available started) default (running tt) sample))
        (polls observed_system.shared observed_system.observer query query_is_drawable))
      (answers polled_system (ok (codes "GET /api/graph")) (ok tt) (6 * 10 ^ 9))

started_is_drawable : IsAdminDrawable json started
unfolding values keys parse_admin_entities
started_is_drawable = (tt, tt)

Reach-answers_example :
    (s : GraphState) × (snap : GraphSnapshot) × (answered_system.shared ≡ available s)
    × (snapshot json s (7 * 10 ^ 9) ≡ ok snap)
    × IsConnected snap
Reach-answers_example =
    Reach-answers json pages catalog display started {sys = answered_system} (7 * 10 ^ 9)
      started_is_drawable reached

Reach-IsTracked_example : Holds (IsTracked started) Unit answered_system.shared
Reach-IsTracked_example =
    Reach-IsTracked json pages catalog display
      (HasDrawableReplies json pages catalog display started) started {sys = answered_system} tt tt
      reached

-- One reply with an identity that cannot be shortened, and one request.
abbrev odd_query : Polled
odd_query = replies (replied (codes "@/x") (codes "odd") ∷ []) 0

abbrev odd_system : System
odd_system = record (serve started) {
  shared = (poll_admin pages.from_utf8_lossy odd_query (available started)).1;
  poller = (poll_admin pages.from_utf8_lossy odd_query (available started)).0;
}

abbrev Anything : Polled → Type 0
Anything input = Unit

abbrev broken_system : System
broken_system = record odd_system {
  shared = (response_to json pages (ok (codes "GET /api/graph")) odd_system.shared 0).1;
}

broken : broken_system.shared ≡ poisoned
unfolding response_to respond first_line skip_space word behind_word word_or method_of path_of
    route_of is_whitespace starts_with split list_eq poll_admin collect graph_response snapshot draw
    add_topics insert_node add_admin_topology add_payloads object_of add_object insert_field
    insert_self array_field string_field insert_zids insert_admin_node shorten admin_node_id
    admin_kind get insert values text_lt len slice_to elapsed_ms
broken = refl

abbrev odd_state : GraphState
odd_state = record started { admin_error = none; admin_entries = (codes "@/x", codes "odd") ∷ [] }

odd_state_is : odd_system.shared ≡ available odd_state
unfolding poll_admin collect insert elapsed_ms
odd_state_is = refl

odd_state_panics : snapshot json odd_state 0 ≡ panic
unfolding snapshot draw add_topics insert_node add_admin_topology add_payloads object_of add_object
    insert_field insert_self array_field string_field insert_zids insert_admin_node shorten
    admin_node_id admin_kind get insert values list_eq text_lt len slice_to elapsed_ms
odd_state_panics = refl

abbrev graph_read : Bytes
graph_read = codes "GET /api/graph"

graph_read-IsGraphRequest : IsGraphRequest pages graph_read
unfolding first_line skip_space word behind_word word_or method_of path_of route_of is_whitespace
    starts_with split list_eq
graph_read-IsGraphRequest = record {
  first = b'G';
  rest = codes "ET /api/graph";
  begins = refl;
  is_get = refl;
  is_graph = refl;
}

-- The request that meets the bad identity, and one more step.
abbrev stopped_system : System
stopped_system = record odd_system {
  shared = (handle_connection json pages (ok graph_read) (ok tt) odd_system.shared 0).1;
}

abbrev asked_system : System
asked_system = record stopped_system {
  shared = (handle_connection json pages (ok graph_read) (ok tt) stopped_system.shared 8).1;
}

Reach-IsDead_example : IsDead json pages catalog display Anything asked_system
Reach-IsDead_example =
    Reach-IsDead json pages catalog display Anything odd_system odd_state graph_read (ok tt) 0
      odd_state_is graph_read-IsGraphRequest odd_state_panics
      (next here (answers stopped_system (ok graph_read) (ok tt) 8))
