-- ===== src/Graph/Serve/Shown.antt =====
-- What a request for the graph is shown of the samples that the observer has counted.
use csyn.Common.{ℕ, some, ◌≡◌, ◌∙◌}
use mathlib.Core.Path.{subst}
use csyn.Common.Text.{Text}
use csyn.Common.Result.{Error, ok}
use csyn.Synapse.{SynapseFbs}
use csyn.Graph.State.{TopicStats, GraphState, new, elapsed_ms}
use csyn.Graph.State.History.{samples_of, entry, IsOrdered}
use csyn.Graph.Admin.{SerdeJson}
use csyn.Graph.Snapshot.{GraphSnapshot, snapshot}
use csyn.Graph.Snapshot.Shown.{Shows, snapshot-Shows}
use csyn.Graph.Http.{available, Pages}
use csyn.Graph.Serve.{System, Polled, Reach, serve}
use csyn.Graph.Serve.Kept.{Holds}
use csyn.Graph.Serve.Tracked.{IsTracked, Reach-IsTracked}
use csyn.Graph.Serve.Logged.{logged, Reach-entry}

module _ {Value Map : Type 0} (json : SerdeJson Value Map) (pages : Pages) (fbs : SynapseFbs)
    (display : Error → Text) (Allowed : Polled → Type 0) where
  -- After any interleaving of the threads, while the lock is not poisoned and as long as the times of the counted samples do not
  -- fall: a snapshot that succeeds has, for each topic of which the observer has counted a sample, a node, a
  -- link and a row with what the samples of that topic add up to.
  pub Reach-Shows :
      (connect keyexpr : Text) (started : ℕ) {sys : System} (s : GraphState) (snap : GraphSnapshot)
      (key : Text) (stats : TopicStats) (latest now : ℕ)
      (r : Reach json pages fbs display Allowed (serve (new connect keyexpr started)) sys)
      → sys.shared ≡ available s
      → IsOrdered started latest (logged json pages fbs display Allowed r)
      → entry started key (samples_of key (logged json pages fbs display Allowed r)) ≡ some stats
      → snapshot json s now ≡ ok snap
      → Shows (elapsed_ms started now) stats snap
  Reach-Shows connect keyexpr started {sys} s snap key stats latest now r e i f h =
      let start = new connect keyexpr started in
      let tracked : IsTracked start s =
        subst (Holds (IsTracked start) Unit) e
          (Reach-IsTracked json pages fbs display Allowed start tt tt r) in
      let found =
        Reach-entry json pages fbs display Allowed connect keyexpr started s key latest r e i in
      subst (λ t. Shows (elapsed_ms t now) stats snap) tracked.same_started
        (snapshot-Shows json s now snap key stats tracked.sorted tracked.keyed (found ∙ f) h)
