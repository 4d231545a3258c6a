-- ===== src/Graph/Serve/Logged.antt =====
-- What the shared state holds of the observed topics is the history of the samples that the observer counted, whatever the
-- other threads did in between.
use csyn.Common.{ℕ, List, [], ◌∷◌, ◌++◌, ◌≡◌, refl, ap, ◌∙◌, arith, length}
use mathlib.Core.Path.{subst}
use csyn.Common.Text.{Text}
use csyn.Common.Bytes.{Bytes}
use csyn.Common.Map.{get}
use csyn.Common.Result.{Result, Error, ok, err, panic, Result-cases, is_ok, is_err, is_panic}
use csyn.Synapse.{SynapseFbs}
use csyn.Types.Topic.{TopicType, wire_type, from_value_encoding}
use csyn.ContractWarning.{ContractWarningThrottle}
use csyn.Graph.State.{GraphState, new, observe_topic}
use csyn.Graph.State.History.{Sample, after, samples_of, entry, IsOrdered, get-after}
use csyn.Graph.Admin.{SerdeJson}
use csyn.Graph.Snapshot.{snapshot}
use csyn.Graph.Http.{Shared, available, poisoned, Pages, graph_response, respond, response_to}
use csyn.Graph.Serve.{
  System, with_lock, with_lock_last, Observation, connect_failed, subscribe_failed, no_sample,
  receive_failed, observed, ObservedSample, observe_sample, observe, Polled, poller_connect_failed,
  query_failed, replies, poll_admin, Step, observes, polls, answers, Reach, here, next, serve,
}
use csyn.Graph.Serve.Kept.{Holds}

module _ (fbs : SynapseFbs) where
  -- The sample as the history has it.
  abbrev pub sample_of : ObservedSample → TopicType → Sample
  sample_of o known = record {
    instant = o.now;
    topic = o.key;
    payload_len = length o.payload;
    root_type = wire_type known;
  }

  abbrev counted_as : ObservedSample → Result TopicType → List Sample
  counted_as o (ok known) = sample_of o known ∷ []
  counted_as o (err e) = []
  counted_as o panic = []

  -- The sample that the observer counts, if there is one: it has a value contract, and the lock is not poisoned.
  abbrev pub counted : Observation → Shared → List Sample
  counted (observed o) (available s) = counted_as o (from_value_encoding fbs o.encoding)
  counted (observed o) poisoned = []
  counted (connect_failed e) shared = []
  counted (subscribe_failed e) shared = []
  counted no_sample shared = []
  counted (receive_failed e) shared = []

  -- The state holds the history of `log`, which has the latest sample first.
  abbrev pub IsHistory : GraphState → List Sample → GraphState → Type 0
  IsHistory start log s =
      (s.topics ≡ (after start log).topics) × (s.started ≡ (after start log).started)

  module _ (start : GraphState) where
    abbrev Logs : List Sample → Shared → Type 0
    Logs log shared = Holds (IsHistory start log) Unit shared

    with_lock-Logs :
        {A : Type 0} (change : GraphState → GraphState) (a : A) (log : List Sample)
        (shared : Shared)
        → ((s : GraphState) → ((change s).topics ≡ s.topics) × ((change s).started ≡ s.started))
        → Logs log shared
        → Logs log (with_lock change a shared).1
    with_lock-Logs change a log (available s) k (h, g) = ((k s).0 ∙ h, (k s).1 ∙ g)
    with_lock-Logs change a log poisoned k h = tt

    with_lock_last-Logs :
        (A : Type 0) (change : GraphState → GraphState) (log : List Sample) (shared : Shared)
        → ((s : GraphState) → ((change s).topics ≡ s.topics) × ((change s).started ≡ s.started))
        → Logs log shared
        → Logs log (with_lock_last {A = A} change shared).1
    with_lock_last-Logs A change log (available s) k (h, g) = ((k s).0 ∙ h, (k s).1 ∙ g)
    with_lock_last-Logs A change log poisoned k h = tt

    -- A change of the topics by one sample.
    observed-IsHistory :
        (o : Sample) (log : List Sample) (s : GraphState)
        → IsHistory start log s
        → IsHistory start (o ∷ log) (observe_topic s o.instant o.topic o.payload_len o.root_type)
    unfolding after observe_topic
    observed-IsHistory o log s (h, g) = (cc, g)

    module _ (display : Error → Text) where
      observe-Logs :
          (input : Observation) (warnings : ContractWarningThrottle) (log : List Sample)
          (shared : Shared)
          → Logs log shared
          → Logs (counted input shared ++ log) (observe fbs display input warnings shared).1
      unfolding observe observe_sample
      observe-Logs (connect_failed e) warnings log shared h =
          with_lock_last-Logs ContractWarningThrottle _ log shared (λ s. (refl, refl)) h
      observe-Logs (subscribe_failed e) warnings log shared h =
          with_lock_last-Logs ContractWarningThrottle _ log shared (λ s. (refl, refl)) h
      observe-Logs no_sample warnings log shared h = h
      observe-Logs (receive_failed e) warnings log shared h =
          with_lock-Logs _ warnings log shared (λ s. (refl, refl)) h
      observe-Logs (observed o) warnings log poisoned h =
          elim (Result-cases (from_value_encoding fbs o.encoding)) [
            | is_ok known e ↦ rw (observe_sample, e) tt
            | is_err x e ↦ rw (observe_sample, e) tt
            | is_panic e ↦ rw (observe_sample, e) tt
          ]
      observe-Logs (observed o) warnings log (available s) h =
          elim (Result-cases (from_value_encoding fbs o.encoding)) [
            | is_ok known e ↦
                rw (observe_sample, e) (observed-IsHistory (sample_of o known) log s h)
            | is_err x e ↦ rw (observe_sample, e) h
            | is_panic e ↦ rw (observe_sample, e) h
          ]

    module _ (from_utf8_lossy : Bytes → Text) where
      poll_admin-Logs :
          (input : Polled) (log : List Sample) (shared : Shared)
          → Logs log shared
          → Logs log (poll_admin from_utf8_lossy input shared).1
      unfolding poll_admin
      poll_admin-Logs (poller_connect_failed e) log shared h =
          with_lock_last-Logs (Unit {0}) _ log shared (λ s. (refl, refl)) h
      poll_admin-Logs (query_failed e) log shared h =
          with_lock-Logs _ (tt {0}) log shared (λ s. (refl, refl)) h
      poll_admin-Logs (replies rs now) log shared h =
          with_lock-Logs _ (tt {0}) log shared (λ s. (refl, refl)) h

module _ {Value Map : Type 0} (json : SerdeJson Value Map) (pages : Pages) (fbs : SynapseFbs)
    (start : GraphState) where
  graph_response-Logs :
      (log : List Sample) (shared : Shared) (now : ℕ)
      → Logs fbs start log shared
      → Logs fbs start log (graph_response json pages shared now).1
  unfolding graph_response
  graph_response-Logs log poisoned now h = h
  graph_response-Logs log (available s) now h = elim (Result-cases (snapshot json s now)) [
    | is_ok snap e ↦ rw (graph_response, e) h
    | is_err x e ↦ rw (graph_response, e) h
    | is_panic e ↦ rw (graph_response, e) tt
  ]

  response_to-Logs :
      (read : Result Bytes) (log : List Sample) (shared : Shared) (now : ℕ)
      → Logs fbs start log shared
      → Logs fbs start log (response_to json pages read shared now).1
  unfolding response_to respond
  response_to-Logs (err e) log shared now h = h
  response_to-Logs panic log shared now h = h
  response_to-Logs (ok []) log shared now h = h
  response_to-Logs (ok (byte ∷ bytes)) log shared now h =
      ground (arith, graph_response-Logs log shared now h)

module _ {Value Map : Type 0} (json : SerdeJson Value Map) (pages : Pages) (fbs : SynapseFbs)
    (display : Error → Text) (Allowed : Polled → Type 0) where
  abbrev logged_by :
      {sys after : System} → Step json pages fbs display Allowed sys after → List Sample
  logged_by (observes shared warnings poller input) = counted fbs input shared
  logged_by (polls shared observer input a) = []
  logged_by (answers sys read written now) = []

  -- The samples that the observer counts on the way, the latest first.
  abbrev pub logged :
      {start sys : System} → Reach json pages fbs display Allowed start sys → List Sample
  logged here = []
  logged (next r step) = logged_by step ++ logged r

  Step-Logs :
      (start : GraphState) (log : List Sample) {sys after : System}
      (step : Step json pages fbs display Allowed sys after)
      → Logs fbs start log sys.shared
      → Logs fbs start (logged_by step ++ log) after.shared
  Step-Logs start log (observes shared warnings poller input) h =
      observe-Logs fbs start display input warnings log shared h
  Step-Logs start log (polls shared observer input a) h =
      poll_admin-Logs fbs start pages.from_utf8_lossy input log shared h
  Step-Logs start log (answers sys read written now) h =
      response_to-Logs json pages fbs start read log sys.shared now h

  Reach-Logs :
      (start : GraphState) {sys : System}
      (r : Reach json pages fbs display Allowed (serve start) sys)
      → Logs fbs start (logged r) sys.shared
  unfolding serve after
  Reach-Logs start here = (refl, refl)
  Reach-Logs start (next r step) = Step-Logs start (logged r) step (Reach-Logs start r)

  -- After any interleaving of the threads, while the lock is not poisoned and as long as the times of the counted samples do not
  -- fall, the entry of each topic is what the samples of that topic say that the observer counted on the way, and a
  -- topic without such samples has none.
  pub Reach-entry :
      (connect keyexpr : Text) (started : ℕ) {sys : System} (s : GraphState) (key : Text) (now : ℕ)
      (r : Reach json pages fbs display Allowed (serve (new connect keyexpr started)) sys)
      → sys.shared ≡ available s
      → IsOrdered started now (logged r)
      → get key s.topics ≡ entry started key (samples_of key (logged r))
  Reach-entry connect keyexpr started {sys} s key now r e i =
      let h : Logs fbs (new connect keyexpr started) (logged r) (available s) =
        subst (Logs fbs (new connect keyexpr started) (logged r)) e
          (Reach-Logs (new connect keyexpr started) r) in
      ap (get key) h.0 ∙ get-after connect keyexpr started key now (logged r) i
