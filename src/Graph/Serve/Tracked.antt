-- ===== src/Graph/Serve/Tracked.antt =====
-- What holds of the shared state whatever the threads do, in any order.
use csyn.Common.{ℕ, [], ◌∷◌, Option, ◌≡◌, refl, arith, Option-cases, inl, inr}
use csyn.Common.Text.{Text}
use csyn.Common.Map.{BTreeMap, get, insert}
use csyn.Common.Map.Sorted.{IsSorted, insert-IsSorted}
use csyn.Common.Result.{Error}
use csyn.Synapse.{SynapseFbs}
use csyn.Graph.State.Keyed.{AreKeyed, get-AreKeyed}
use csyn.Graph.State.{TopicStats, GraphState, or_first, count_sample, observe_topic}
use csyn.Graph.Admin.{SerdeJson}
use csyn.Graph.Http.{Pages}
use csyn.Graph.Serve.Kept.{Holds, IsKept, Reach-Holds}
use csyn.Graph.Serve.{System, Polled, Reach, serve}

-- The topics are sorted, each entry is that of its key, and what the server was started with is as it was.
pub record IsTracked (start s : GraphState) : Type 0 where
  pub sorted : IsSorted s.topics
  pub keyed : AreKeyed s.topics
  pub same_connect : s.connect ≡ start.connect
  pub same_keyexpr : s.keyexpr ≡ start.keyexpr
  pub same_started : s.started ≡ start.started

insert-AreKeyed :
    (key : Text) (stats : TopicStats) (topics : BTreeMap TopicStats)
    → stats.topic ≡ key
    → AreKeyed topics
    → AreKeyed (insert key stats topics)
unfolding insert
insert-AreKeyed key stats [] h k = (h, tt)
insert-AreKeyed key stats ((j, first) ∷ topics) h (i, k) =
    ground (arith, insert-AreKeyed key stats topics h k)

or_first_named :
    (key : Text) (first : TopicStats) (topics : BTreeMap TopicStats)
    → AreKeyed topics
    → first.topic ≡ key
    → (or_first (get key topics) first).topic ≡ key
or_first_named key first topics k e = elim (Option-cases (get key topics)) [
  | inl h ↦ rw h e
  | inr (stats, h) ↦ rw h (get-AreKeyed key topics stats k h)
]

observe_topic-IsTracked :
    (start s : GraphState) (instant : ℕ) (topic : Text) (payload_len : ℕ) (root_type : Option Text)
    → IsTracked start s
    → IsTracked start (observe_topic s instant topic payload_len root_type)
unfolding observe_topic count_sample
observe_topic-IsTracked start s instant topic payload_len root_type h = record {
  sorted = insert-IsSorted topic _ s.topics h.sorted;
  keyed = insert-AreKeyed topic _ s.topics (or_first_named topic _ s.topics h.keyed refl) h.keyed;
  same_connect = h.same_connect;
  same_keyexpr = h.same_keyexpr;
  same_started = h.same_started;
}

module _ {Value Map : Type 0} (json : SerdeJson Value Map) (pages : Pages) (fbs : SynapseFbs)
    (display : Error → Text) (Allowed : Polled → Type 0) where
  IsTracked-IsKept :
      (start : GraphState) → IsKept json pages fbs display Allowed (IsTracked start) Unit
  IsTracked-IsKept start = record {
    observing = observe_topic-IsTracked start;
    last_error = λ s message h. record {
      sorted = h.sorted;
      keyed = h.keyed;
      same_connect = h.same_connect;
      same_keyexpr = h.same_keyexpr;
      same_started = h.same_started;
    };
    admin_error = λ s message h. record {
      sorted = h.sorted;
      keyed = h.keyed;
      same_connect = h.same_connect;
      same_keyexpr = h.same_keyexpr;
      same_started = h.same_started;
    };
    storing = λ s rs now a h. record {
      sorted = h.sorted;
      keyed = h.keyed;
      same_connect = h.same_connect;
      same_keyexpr = h.same_keyexpr;
      same_started = h.same_started;
    };
    panicking = λ s now h e. tt;
  }

  -- After any interleaving of the threads the lock is poisoned, or the state has its topics sorted and each under its own
  -- key, and was started with the same router, key expression and clock.
  pub Reach-IsTracked :
      (start : GraphState) {sys : System}
      → IsSorted start.topics
      → AreKeyed start.topics
      → Reach json pages fbs display Allowed (serve start) sys
      → Holds (IsTracked start) Unit sys.shared
  unfolding serve
  Reach-IsTracked start sorted keyed r =
      Reach-Holds json pages fbs display Allowed (IsTracked start) Unit (IsTracked-IsKept start) r
        (record {
          sorted = sorted;
          keyed = keyed;
          same_connect = refl;
          same_keyexpr = refl;
          same_started = refl;
        })
