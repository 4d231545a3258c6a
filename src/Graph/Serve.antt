-- ===== src/Graph/Serve.antt =====
-- The threads of `serve` in rust/src/graph.rs: the traffic observer, the admin poller and one thread for each request,
-- which meet at the mutex around the state. A thread is a function of its next input; the system takes these steps in
-- any order. How an error is written is an input.
pub mod Kept
pub mod Tracked
pub mod Lock
pub mod Dead
pub mod Logged
pub mod Shown
use csyn.Common.{ℕ, List, [], ◌∷◌, ◌++◌, Option, none, some, length}
use csyn.Common.Text.{Text, codes}
use csyn.Common.Bytes.{Bytes}
use csyn.Common.Map.{BTreeMap, insert}
use csyn.Common.Result.{Result, Error, ok, err, panic}
use csyn.Synapse.{SynapseFbs}
use csyn.Types.Topic.{TopicType, wire_type, from_value_encoding}
use csyn.ContractWarning.{ContractWarningThrottle, default, warn}
use csyn.Graph.State.{GraphState, elapsed_ms, observe_topic}
use csyn.Graph.Admin.{SerdeJson}
use csyn.Graph.Http.{Shared, available, poisoned, Pages, handle_connection}

-- A thread that runs with its own variables, or has ended.
pub data Thread (A : Type 0) : Type 0 where
  running : A → Thread A
  ended : Thread A

pub record System : Type 0 where
  pub shared : Shared
  pub observer : Thread ContractWarningThrottle
  pub poller : Thread (Unit {0})

-- `state.lock().expect("graph state poisoned")` and a change of the state: a thread that finds the lock poisoned panics.
abbrev pub with_lock : {A : Type 0} → (GraphState → GraphState) → A → Shared → Thread A × Shared
with_lock change a (available s) = (running a, available (change s))
with_lock change a poisoned = (ended, poisoned)

-- The last change that a thread makes before it returns.
abbrev pub with_lock_last : {A : Type 0} → (GraphState → GraphState) → Shared → Thread A × Shared
with_lock_last change (available s) = (ended, available (change s))
with_lock_last change poisoned = (ended, poisoned)

abbrev pub set_last_error : Text → GraphState → GraphState
set_last_error message s = record s { last_error = some message }

abbrev pub set_admin_error : Text → GraphState → GraphState
set_admin_error message s = record s { admin_error = some message }

pub record ObservedSample : Type 0 where
  pub key : Text
  pub encoding : Text
  pub payload : Bytes
  pub now : ℕ

-- What happens to the observer: `open_session` or `declare_subscriber` fails, or a poll returns.
pub data Observation : Type 0 where
  connect_failed : Text → Observation
  subscribe_failed : Text → Observation
  no_sample : Observation
  receive_failed : Text → Observation
  observed : ObservedSample → Observation

module _ (fbs : SynapseFbs) (display : Error → Text) where
  -- What the observer does with a sample.
  unfoldable pub observe_sample :
      ObservedSample → ContractWarningThrottle → Shared → Thread ContractWarningThrottle × Shared
  observe_sample o warnings shared = elim (from_value_encoding fbs o.encoding) [
    | ok known ↦
        with_lock (λ s. observe_topic s o.now o.key (length o.payload) (wire_type known)) warnings
          shared
    | err e ↦
        with_lock (set_last_error (codes "rejecting " ++ (o.key ++ (codes ": " ++ display e))))
          (warn warnings o.now o.key (display e)).0 shared
    | panic ↦ (ended, shared)
  ]

  unfoldable pub observe :
      Observation → ContractWarningThrottle → Shared → Thread ContractWarningThrottle × Shared
  observe (connect_failed e) warnings shared =
      with_lock_last (set_last_error (codes "traffic observer failed to connect: " ++ e)) shared
  observe (subscribe_failed e) warnings shared =
      with_lock_last (set_last_error (codes "traffic observer failed to subscribe: " ++ e)) shared
  observe no_sample warnings shared = (running warnings, shared)
  observe (receive_failed e) warnings shared =
      with_lock (set_last_error (codes "traffic observer receive error: " ++ e)) warnings shared
  observe (observed o) warnings shared = observe_sample o warnings shared

-- What `recv_timeout` gives for the replies to a query, until it gives `Ok(None)` or an error.
pub data Reply : Type 0 where
  replied : (key : Text) → (payload : Bytes) → Reply
  replied_error : Text → Reply
  recv_failed : Text → Reply

-- What happens to the admin poller: `open_session` fails, a query fails, or its replies are read.
pub data Polled : Type 0 where
  poller_connect_failed : Text → Polled
  query_failed : Text → Polled
  replies : List Reply → ℕ → Polled

module _ (from_utf8_lossy : Bytes → Text) where
  -- The loop over the replies.
  unfoldable pub collect : BTreeMap Text → List Reply → BTreeMap Text
  collect entries [] = entries
  collect entries (replied key payload ∷ rest) =
      collect (insert key (from_utf8_lossy payload) entries) rest
  collect entries (replied_error e ∷ rest) = collect (insert (codes "@error/reply") e entries) rest
  collect entries (recv_failed e ∷ rest) = insert (codes "@error/recv") e entries

  -- The change that a finished query makes at the time `now`.
  abbrev pub store_entries : List Reply → ℕ → GraphState → GraphState
  store_entries rs now s = record s {
    admin_error = none;
    admin_entries = collect [] rs;
    last_admin_poll_ms = elapsed_ms s.started now;
  }

  unfoldable pub poll_admin : Polled → Shared → Thread (Unit {0}) × Shared
  poll_admin (poller_connect_failed e) shared =
      with_lock_last (set_admin_error (codes "admin poller failed to connect: " ++ e)) shared
  poll_admin (query_failed e) shared =
      with_lock (set_admin_error (codes "admin query failed: " ++ e)) tt shared
  poll_admin (replies rs now) shared = with_lock (store_entries rs now) tt shared

module _ {Value Map : Type 0} (json : SerdeJson Value Map) (pages : Pages) (fbs : SynapseFbs)
    (display : Error → Text) where
  -- One step of one thread. `Allowed` bounds what may happen to the poller.
  module _ (Allowed : Polled → Type 0) where
    pub data Step : System → System → Type 0 where
      observes :
          (shared : Shared) (warnings : ContractWarningThrottle) (poller : Thread (Unit {0}))
          (input : Observation)
          → Step
              (record { shared = shared; observer = running warnings; poller = poller })
              (record {
                shared = (observe fbs display input warnings shared).1;
                observer = (observe fbs display input warnings shared).0;
                poller = poller;
              })
      polls :
          (shared : Shared) (observer : Thread ContractWarningThrottle) (input : Polled)
          → Allowed input
          → Step
              (record { shared = shared; observer = observer; poller = running tt })
              (record {
                shared = (poll_admin pages.from_utf8_lossy input shared).1;
                observer = observer;
                poller = (poll_admin pages.from_utf8_lossy input shared).0;
              })
      answers :
          (sys : System) (read : Result Bytes) (written : Result (Unit {0})) (now : ℕ)
          → Step sys
              (record sys { shared = (handle_connection json pages read written sys.shared now).1 })

    pub data Reach (start : System) : System → Type 0 where
      here : Reach start start
      next : {sys after : System} → Reach start sys → Step sys after → Reach start after

-- `serve`, when the threads are started.
unfoldable pub serve : GraphState → System
serve s = record { shared = available s; observer = running default; poller = running tt }
