-- ===== src/Graph/Serve/Dead.antt =====
-- What a panic while the lock is held does to the threads.
use csyn.Common.{ℕ, ◌∷◌, ◌≡◌, refl}
use csyn.Common.Text.{Text, codes, list_eq}
use csyn.Common.Bytes.{Bytes}
use csyn.Common.Result.{Result, Error, ok, panic, Result-cases, is_ok, is_err, is_panic}
use csyn.Synapse.{SynapseFbs}
use csyn.Types.Topic.{from_value_encoding}
use csyn.ContractWarning.{ContractWarningThrottle}
use csyn.Graph.State.{GraphState}
use csyn.Graph.Admin.{SerdeJson}
use csyn.Graph.Snapshot.{snapshot}
use csyn.Graph.Http.{
  Shared, available, poisoned, Pages, first_line, method_of, path_of, route_of, graph_response,
  respond, response_to, handle_connection,
}
use csyn.Graph.Serve.{
  System, ended, ObservedSample, receive_failed, observed, observe_sample, observe, Polled,
  poller_connect_failed, query_failed, replies, poll_admin, Reach,
}
use csyn.Graph.Serve.Kept.{Holds, IsKept, Reach-Holds}

is_poisoned : (shared : Shared) → Holds (λ s. ⊥) Unit shared → shared ≡ poisoned
is_poisoned (available s) h = absurd h
is_poisoned poisoned h = refl

-- The bytes of a request for the graph.
pub record IsGraphRequest (pages : Pages) (read : Bytes) : Type 0 where
  pub first : ℕ
  pub rest : Bytes
  pub begins : read ≡ first ∷ rest
  pub is_get : method_of (first_line (pages.from_utf8_lossy (first ∷ rest))) ≡ codes "GET"
  pub is_graph :
      route_of (path_of (first_line (pages.from_utf8_lossy (first ∷ rest)))) ≡ codes "/api/graph"

module _ {Value Map : Type 0} (json : SerdeJson Value Map) (pages : Pages) (fbs : SynapseFbs)
    (display : Error → Text) (Allowed : Polled → Type 0) where
  -- Nothing that needs the state goes on: the observer ends at the next sample or failure, the poller at the next query, and every
  -- request for the graph panics.
  pub record IsDead (sys : System) : Type 0 where
    pub sample :
        (o : ObservedSample) (warnings : ContractWarningThrottle)
        → (observe fbs display (observed o) warnings sys.shared).0 ≡ ended
    pub failure :
        (e : Text) (warnings : ContractWarningThrottle)
        → (observe fbs display (receive_failed e) warnings sys.shared).0 ≡ ended
    pub poll : (input : Polled) → (poll_admin pages.from_utf8_lossy input sys.shared).0 ≡ ended
    pub request :
        (read : Bytes) (written : Result (Unit {0})) (now : ℕ)
        → IsGraphRequest pages read
        → (handle_connection json pages (ok read) written sys.shared now).0 ≡ panic

  graph_request :
      (read : Bytes) (shared : Shared) (now : ℕ)
      → IsGraphRequest pages read
      → response_to json pages (ok read) shared now ≡ graph_response json pages shared now
  unfolding response_to respond list_eq
  graph_request read shared now g = rw (g.begins, response_to, respond, g.is_get, g.is_graph) refl

  stops_at_sample :
      (o : ObservedSample) (warnings : ContractWarningThrottle)
      → (observe fbs display (observed o) warnings poisoned).0 ≡ ended
  unfolding observe observe_sample
  stops_at_sample o warnings = elim (Result-cases (from_value_encoding fbs o.encoding)) [
    | is_ok known q ↦ rw (observe_sample, q) refl
    | is_err e q ↦ rw (observe_sample, q) refl
    | is_panic q ↦ rw (observe_sample, q) refl
  ]

  stops_at_query : (input : Polled) → (poll_admin pages.from_utf8_lossy input poisoned).0 ≡ ended
  unfolding poll_admin
  stops_at_query (poller_connect_failed e) = refl
  stops_at_query (query_failed e) = refl
  stops_at_query (replies rs now) = refl

  poisoned-IsDead : (sys : System) → sys.shared ≡ poisoned → IsDead sys
  unfolding observe graph_response
  poisoned-IsDead sys e = record {
    sample = λ o warnings. rw e (stops_at_sample o warnings);
    failure = λ message warnings. rw e refl;
    poll = λ input. rw e (stops_at_query input);
    request = λ read written now g. rw (graph_request read sys.shared now g, e) refl;
  }

  nothing-IsKept : IsKept json pages fbs display Allowed (λ s. ⊥) Unit
  nothing-IsKept = record {
    observing = λ s now topic payload_len root_type h. h;
    last_error = λ s message h. h;
    admin_error = λ s message h. h;
    storing = λ s rs now a h. h;
    panicking = λ s now h e. tt;
  }

  -- If a request for the graph comes while a snapshot of the state would panic, then from there on, whatever steps the threads
  -- take in whatever order: the observer ends at its next sample or failure, the poller at its next query, and every further
  -- request for the graph panics.
  pub Reach-IsDead :
      (start : System) {after : System} (s : GraphState) (read : Bytes)
      (written : Result (Unit {0})) (now : ℕ)
      → start.shared ≡ available s
      → IsGraphRequest pages read
      → snapshot json s now ≡ panic
      → Reach json pages fbs display Allowed
          (record start {
            shared = (handle_connection json pages (ok read) written start.shared now).1;
          })
          after
      → IsDead after
  unfolding graph_response
  Reach-IsDead start {after} s read written now e g p r =
      let broken : (handle_connection json pages (ok read) written start.shared now).1 ≡ poisoned =
        rw (graph_request read start.shared now g, e, graph_response, p) refl in
      poisoned-IsDead after (
        is_poisoned after.shared (
          Reach-Holds json pages fbs display Allowed (λ s. ⊥) Unit nothing-IsKept r (rw broken tt)))
