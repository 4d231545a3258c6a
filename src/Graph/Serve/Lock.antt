-- ===== src/Graph/Serve/Lock.antt =====
-- That the lock is never poisoned, and what follows.
use csyn.Common.{ℕ, ◌≡◌, ◌≢◌, refl}
use csyn.Common.Text.{Text}
use csyn.Common.Result.{Error, ok, panic}
use csyn.Synapse.{SynapseFbs}
use csyn.Graph.State.{GraphState, observe_topic}
use csyn.Graph.Admin.{SerdeJson}
use csyn.Graph.Snapshot.{GraphSnapshot, snapshot}
use csyn.Graph.Snapshot.Connected.{IsConnected, IsAdminDrawable, snapshot-IsConnected}
use csyn.Graph.Http.{Shared, available, poisoned, Pages}
use csyn.Graph.Serve.{
  System, Polled, poller_connect_failed, query_failed, replies, store_entries, Reach, serve,
}
use csyn.Graph.Serve.Kept.{Holds, IsKept, Reach-Holds}

is_available :
    (P : GraphState → Type 0) (shared : Shared)
    → Holds P ⊥ shared
    → (s : GraphState) × (shared ≡ available s) × P s
is_available P (available s) h = (s, refl, h)
is_available P poisoned h = absurd h

module _ {Value Map : Type 0} (json : SerdeJson Value Map) (pages : Pages) (fbs : SynapseFbs)
    (display : Error → Text) where
  -- The identities in the replies to a query can be shortened for labels.
  abbrev pub HasDrawableReplies : GraphState → Polled → Type 0
  HasDrawableReplies start (poller_connect_failed e) = Unit
  HasDrawableReplies start (query_failed e) = Unit
  HasDrawableReplies start (replies rs now) =
      IsAdminDrawable json (store_entries pages.from_utf8_lossy rs now start)

  IsAdminDrawable-IsKept :
      (start : GraphState)
      → IsKept json pages fbs display (HasDrawableReplies start) (IsAdminDrawable json) ⊥
  IsAdminDrawable-IsKept start = record {
    observing = λ s now topic payload_len root_type h. unfold observe_topic in h;
    last_error = λ s message h. h;
    admin_error = λ s message h. h;
    storing = λ s rs now a h. a;
    panicking = λ s now h e. no_panic s now h e;
  }
    where
      no_panic : (s : GraphState) (now : ℕ) → IsAdminDrawable json s → snapshot json s now ≢ panic
      no_panic s now h e = let (snap, f, c) = snapshot-IsConnected json s now h in cc (e, f)

  -- While all replies that the admin poller reads name identities that can be shortened, the lock is never poisoned, whatever
  -- the order of the threads' steps, and at any time a snapshot succeeds and is a graph.
  pub Reach-answers :
      (start : GraphState) {sys : System} (now : ℕ)
      → IsAdminDrawable json start
      → Reach json pages fbs display (HasDrawableReplies start) (serve start) sys
      → (s : GraphState) × (snap : GraphSnapshot) × (sys.shared ≡ available s)
        × (snapshot json s now ≡ ok snap)
        × IsConnected snap
  unfolding serve
  Reach-answers start {sys} now drawable r =
      let (s, e, h) = is_available (IsAdminDrawable json) sys.shared (
        Reach-Holds json pages fbs display (HasDrawableReplies start) (IsAdminDrawable json) ⊥
          (IsAdminDrawable-IsKept start) r drawable) in
      let (snap, f, c) = snapshot-IsConnected json s now h in (s, snap, e, f, c)
