-- ===== src/Types/Topic/Contract.antt =====
-- Value contracts: what a publisher attaches, a subscriber resolves, whatever the transport puts in front.
use csyn.Common.{true, false, some, [], ◌∷◌, ◌++◌, ◌≡◌, refl, sym, ap, ◌∙◌}
use mathlib.Core.Path.{subst}
use mathlib.Core.List.{append_assoc}
use csyn.Common.Text.{Text, codes, starts_with, find_from}
use csyn.Common.Result.{ok}
use csyn.Synapse.{TopicInfo, SynapseFbs}
use csyn.Types.Topic.{TopicType, from_topic, canonical, from_value_encoding, zenoh_encoding}
use csyn.Types.Topic.Lookup.{IsPaired}

-- The pattern begins nowhere inside `front`, with `rest` behind it.
abbrev pub IsClear : Text → Text → Text → Type 0
IsClear pattern [] rest = Unit
IsClear pattern (c ∷ front) rest =
    (starts_with (c ∷ (front ++ rest)) pattern ≡ false) × IsClear pattern front rest

find_from-start : (pattern s : Text) → starts_with s pattern ≡ true → find_from pattern s ≡ some s
unfolding find_from
find_from-start pattern [] h = rw h
find_from-start pattern (c ∷ s) h = rw h

pub find_from-append :
    (pattern front rest : Text)
    → IsClear pattern front rest
    → starts_with rest pattern ≡ true
    → find_from pattern (front ++ rest) ≡ some rest
unfolding find_from
find_from-append pattern [] rest h k = find_from-start pattern rest k
find_from-append pattern (c ∷ front) rest (h, hs) k =
    rw h (find_from-append pattern front rest hs k)

abbrev pub marker : Text
marker = codes "application/x-"

-- The contracts of the catalog: what `encoding_for_topic` writes begins with the Synapse media type, and
-- `topic_for_encoding` reads it back; and of Zenoh: the text of an encoding is the one that it was made from, behind a front
-- in which the media type does not begin.
pub record HasContract (fbs : SynapseFbs) (topic : TopicInfo) : Type 0 where
  pub media : starts_with (fbs.encoding_for_topic topic) marker ≡ true
  pub read_back : fbs.topic_for_encoding (fbs.encoding_for_topic topic) ≡ ok topic
  pub front : Text
  pub has_front :
      fbs.encoding_text (fbs.encoding_for_topic topic) ≡ front ++ fbs.encoding_for_topic topic
  pub clear_front : IsClear marker front (fbs.encoding_for_topic topic)

IsClear-append :
    (pattern w front rest : Text)
    → IsClear pattern w (front ++ rest)
    → IsClear pattern front rest
    → IsClear pattern (w ++ front) rest
IsClear-append pattern [] front rest h k = k
IsClear-append pattern (c ∷ w) front rest (h, hs) k = (
  ap (λ s. starts_with (c ∷ s) pattern) (append_assoc w front rest) ∙ h,
  IsClear-append pattern w front rest hs k,
)

canonical-append :
    (fbs : SynapseFbs) (known : TopicType) (wrapper : Text)
    → HasContract fbs known.topic
    → IsClear marker wrapper (zenoh_encoding fbs known)
    → canonical (wrapper ++ zenoh_encoding fbs known) ≡ fbs.encoding_for_topic known.topic
unfolding zenoh_encoding canonical
canonical-append fbs known wrapper c clear =
    let text = fbs.encoding_for_topic known.topic in
    let behind : IsClear marker (wrapper ++ c.front) text =
      IsClear-append marker wrapper c.front text (subst (IsClear marker wrapper) c.has_front clear)
        c.clear_front in
    let joined : wrapper ++ zenoh_encoding fbs known ≡ (wrapper ++ c.front) ++ text =
      ap (λ s. wrapper ++ s) c.has_front ∙ sym (append_assoc wrapper c.front text) in
    ap canonical joined
    ∙ rw (canonical, find_from-append marker (wrapper ++ c.front) text behind c.media) refl

-- The encoding of a topic resolves to that topic, also behind any transport wrapper in
-- which the media type does not begin.
pub from_value_encoding-zenoh_encoding :
    (fbs : SynapseFbs) (known : TopicType) (wrapper : Text)
    → IsPaired fbs known
    → HasContract fbs known.topic
    → IsClear marker wrapper (zenoh_encoding fbs known)
    → from_value_encoding fbs (wrapper ++ zenoh_encoding fbs known) ≡ ok known
unfolding from_value_encoding from_topic
from_value_encoding-zenoh_encoding fbs known wrapper paired c clear =
    rw (canonical-append fbs known wrapper c clear, c.read_back, paired)
