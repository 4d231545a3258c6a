-- ===== src/Graph/State/Keyed.antt =====
-- Each entry of the observed topics is that of its key.
use csyn.Common.{[], ◌∷◌, some, ◌≡◌, arith, All}
use csyn.Common.Text.{Text}
use csyn.Common.TextOrder.{list_eq_iff}
use csyn.Common.Map.{BTreeMap, get}
use csyn.Graph.State.{TopicStats}

abbrev pub AreKeyed : BTreeMap TopicStats → Type 0
AreKeyed topics = All (λ e. e.1.topic ≡ e.0) topics

pub get-AreKeyed :
    (key : Text) (topics : BTreeMap TopicStats) (stats : TopicStats)
    → AreKeyed topics
    → get key topics ≡ some stats
    → stats.topic ≡ key
unfolding get
get-AreKeyed key [] stats k e = cc
get-AreKeyed key ((j, first) ∷ topics) stats (h, k) e =
    ground (arith, list_eq_iff j key, get-AreKeyed key topics stats k)
