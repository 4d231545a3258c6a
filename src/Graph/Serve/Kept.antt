-- ===== src/Graph/Serve/Kept.antt =====
-- What every change of the shared state keeps, every reachable system has.
use csyn.Common.{ℕ, List, [], ◌∷◌, Option, ◌≡◌, arith, length}
use csyn.Common.Text.{Text}
use csyn.Common.Bytes.{Bytes}
use csyn.Common.Result.{Result, Error, ok, err, panic, Result-cases, is_ok, is_err, is_panic}
use csyn.Synapse.{SynapseFbs}
use csyn.Types.Topic.{wire_type, from_value_encoding}
use csyn.ContractWarning.{ContractWarningThrottle, warn}
use csyn.Graph.State.{GraphState, observe_topic}
use csyn.Graph.Admin.{SerdeJson}
use csyn.Graph.Snapshot.{snapshot}
use csyn.Graph.Http.{Shared, available, poisoned, Pages, graph_response, respond, response_to}
use csyn.Graph.Serve.{
  System, with_lock, with_lock_last, set_last_error, set_admin_error, store_entries, Observation,
  connect_failed, subscribe_failed, no_sample, receive_failed, observed, ObservedSample,
  observe_sample, observe, Reply, Polled, poller_connect_failed, query_failed, replies, poll_admin,
  Step, observes, polls, answers, Reach, here, next,
}

-- `P` of the state, or `Z` where the lock is poisoned.
abbrev pub Holds : (GraphState → Type 0) → Type 0 → Shared → Type 0
Holds P Z (available s) = P s
Holds P Z poisoned = Z

module _ {Value Map : Type 0} (json : SerdeJson Value Map) (pages : Pages) (fbs : SynapseFbs)
    (display : Error → Text) (Allowed : Polled → Type 0) (P : GraphState → Type 0)
    (Z : Type 0) where
  -- Each change of the state keeps `P`, and a snapshot of a state with `P` panics only if `Z`.
  pub record IsKept : Type 0 where
    pub observing :
        (s : GraphState) (now : ℕ) (topic : Text) (payload_len : ℕ) (root_type : Option Text)
        → P s
        → P (observe_topic s now topic payload_len root_type)
    pub last_error : (s : GraphState) (message : Text) → P s → P (set_last_error message s)
    pub admin_error : (s : GraphState) (message : Text) → P s → P (set_admin_error message s)
    pub storing :
        (s : GraphState) (rs : List Reply) (now : ℕ)
        → Allowed (replies rs now)
        → P s
        → P (store_entries pages.from_utf8_lossy rs now s)
    pub panicking : (s : GraphState) (now : ℕ) → P s → snapshot json s now ≡ panic → Z

  module _ (kept : IsKept) where
    with_lock-Holds :
        {A : Type 0} (change : GraphState → GraphState) (a : A) (shared : Shared)
        → ((s : GraphState) → P s → P (change s))
        → Holds P Z shared
        → Holds P Z (with_lock change a shared).1
    with_lock-Holds change a (available s) k h = k s h
    with_lock-Holds change a poisoned k h = h

    with_lock_last-Holds :
        (A : Type 0) (change : GraphState → GraphState) (shared : Shared)
        → ((s : GraphState) → P s → P (change s))
        → Holds P Z shared
        → Holds P Z (with_lock_last {A = A} change shared).1
    with_lock_last-Holds A change (available s) k h = k s h
    with_lock_last-Holds A change poisoned k h = h

    observe_sample-Holds :
        (o : ObservedSample) (warnings : ContractWarningThrottle) (shared : Shared)
        → Holds P Z shared
        → Holds P Z (observe_sample fbs display o warnings shared).1
    unfolding observe_sample
    observe_sample-Holds o warnings shared h =
        elim (Result-cases (from_value_encoding fbs o.encoding)) [
          | is_ok known e ↦
              rw (observe_sample, e)
                (with_lock-Holds _ warnings shared
                  (λ s p. kept.observing s o.now o.key (length o.payload) (wire_type known) p) h)
          | is_err x e ↦
              rw (observe_sample, e)
                (with_lock-Holds _ (warn warnings o.now o.key (display x)).0 shared
                  (λ s p. kept.last_error s _ p) h)
          | is_panic e ↦ rw (observe_sample, e) h
        ]

    observe-Holds :
        (input : Observation) (warnings : ContractWarningThrottle) (shared : Shared)
        → Holds P Z shared
        → Holds P Z (observe fbs display input warnings shared).1
    unfolding observe
    observe-Holds (connect_failed e) warnings shared h =
        with_lock_last-Holds ContractWarningThrottle _ shared (λ s p. kept.last_error s _ p) h
    observe-Holds (subscribe_failed e) warnings shared h =
        with_lock_last-Holds ContractWarningThrottle _ shared (λ s p. kept.last_error s _ p) h
    observe-Holds no_sample warnings shared h = h
    observe-Holds (receive_failed e) warnings shared h =
        with_lock-Holds _ warnings shared (λ s p. kept.last_error s _ p) h
    observe-Holds (observed o) warnings shared h = observe_sample-Holds o warnings shared h

    poll_admin-Holds :
        (input : Polled) (shared : Shared)
        → Allowed input
        → Holds P Z shared
        → Holds P Z (poll_admin pages.from_utf8_lossy input shared).1
    unfolding poll_admin
    poll_admin-Holds (poller_connect_failed e) shared a h =
        with_lock_last-Holds (Unit {0}) _ shared (λ s p. kept.admin_error s _ p) h
    poll_admin-Holds (query_failed e) shared a h =
        with_lock-Holds _ (tt {0}) shared (λ s p. kept.admin_error s _ p) h
    poll_admin-Holds (replies rs now) shared a h =
        with_lock-Holds _ (tt {0}) shared (λ s p. kept.storing s rs now a p) h

    graph_response-Holds :
        (shared : Shared) (now : ℕ)
        → Holds P Z shared
        → Holds P Z (graph_response json pages shared now).1
    unfolding graph_response
    graph_response-Holds poisoned now h = h
    graph_response-Holds (available s) now h = elim (Result-cases (snapshot json s now)) [
      | is_ok snap e ↦ rw (graph_response, e) h
      | is_err x e ↦ rw (graph_response, e) h
      | is_panic e ↦ rw (graph_response, e) (kept.panicking s now h e)
    ]

    response_to-Holds :
        (read : Result Bytes) (shared : Shared) (now : ℕ)
        → Holds P Z shared
        → Holds P Z (response_to json pages read shared now).1
    unfolding response_to respond
    response_to-Holds (err e) shared now h = h
    response_to-Holds panic shared now h = h
    response_to-Holds (ok []) shared now h = h
    response_to-Holds (ok (byte ∷ bytes)) shared now h =
        ground (arith, graph_response-Holds shared now h)

    Step-Holds :
        {sys after : System}
        → Step json pages fbs display Allowed sys after
        → Holds P Z sys.shared
        → Holds P Z after.shared
    Step-Holds (observes shared warnings poller input) h = observe-Holds input warnings shared h
    Step-Holds (polls shared observer input a) h = poll_admin-Holds input shared a h
    Step-Holds (answers sys read written now) h = response_to-Holds read sys.shared now h

    pub Reach-Holds :
        {start sys : System}
        → Reach json pages fbs display Allowed start sys
        → Holds P Z start.shared
        → Holds P Z sys.shared
    Reach-Holds here h = h
    Reach-Holds (next r step) h = Step-Holds step (Reach-Holds r h)
