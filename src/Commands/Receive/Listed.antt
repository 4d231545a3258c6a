-- ===== src/Commands/Receive/Listed.antt =====
-- What `topic list` prints.
use csyn.Common.{
  List, [], ◌∷◌, true, false, Option, none, some, All, ◌≡◌, ◌≢◌, refl, arith, Option-cases, inl,
  inr, Bool-cases,
}
use csyn.Common.Text.{Text, list_eq}
use csyn.Common.TextOrder.{list_eq_iff}
use csyn.Common.Map.{BTreeMap, get, insert}
use csyn.Common.Map.Laws.{get-insert, get-insert_self}
use csyn.Common.Result.{Result, Error, ok, panic, Result-cases, is_ok, is_err, is_panic}
use csyn.Synapse.{SynapseFbs}
use csyn.Types.Topic.{TopicType}
use csyn.ContractWarning.{ContractWarningThrottle, default, warn}
use csyn.Commands.Receive.{
  Sample, Poll, timed_out, failed, received, require_value_type, is_other_type, list_topics,
}

module _ (fbs : SynapseFbs) (display : Error → Text) (type_filter : Option TopicType) where
  -- The sample counts: it has a valid value contract, of the type `known`, which the filter lets through.
  abbrev pub IsAccepted : Sample → TopicType → Type 0
  IsAccepted s known =
      (require_value_type fbs s.key s.encoding none ≡ ok known)
      × (is_other_type fbs type_filter known ≡ false)

  -- Receiving does not fail, and every topic has one type, the one that `name_of` names.
  abbrev pub IsSteady : (Text → Text) → Poll → Type 0
  IsSteady name_of timed_out = Unit
  IsSteady name_of (failed e) = ⊥
  IsSteady name_of (received s) =
      (require_value_type fbs s.key s.encoding none ≢ panic)
      × ((known : TopicType) → IsAccepted s known → known.topic.name ≡ name_of s.key)

  -- If the sample counts, its topic is listed with its type.
  abbrev pub IsListed : BTreeMap Text → Poll → Type 0
  IsListed topics timed_out = Unit
  IsListed topics (failed e) = Unit
  IsListed topics (received s) =
      (known : TopicType) → IsAccepted s known → get s.key topics ≡ some known.topic.name

  -- The entries that are there are those that `name_of` names.
  abbrev IsNamed : (Text → Text) → BTreeMap Text → Type 0
  IsNamed name_of topics = (key name : Text) → get key topics ≡ some name → name ≡ name_of key

  abbrev pub Keeps : BTreeMap Text → BTreeMap Text → Type 0
  Keeps topics topics' =
      (key name : Text) → get key topics ≡ some name → get key topics' ≡ some name

  insert-IsNamed :
      (name_of : Text → Text) (key name : Text) (topics : BTreeMap Text)
      → IsNamed name_of topics
      → name ≡ name_of key
      → IsNamed name_of (insert key name topics)
  insert-IsNamed name_of key name topics h e k n f =
      ground (arith, get-insert k key name topics, list_eq_iff key k, h k n)

  insert-Keeps :
      (name_of : Text → Text) (key name : Text) (topics : BTreeMap Text)
      → IsNamed name_of topics
      → name ≡ name_of key
      → Keeps topics (insert key name topics)
  insert-Keeps name_of key name topics h e k n f =
      ground (arith, get-insert k key name topics, list_eq_iff key k, h k n)

  -- A sample is of one type.
  pub is_same :
      (s : Sample) (known other : TopicType)
      → require_value_type fbs s.key s.encoding none ≡ ok known
      → IsAccepted s other
      → other ≡ known
  is_same s known other e (f, g) = cc

  pub not_both :
      {A : Type 0} (s : Sample) (known other : TopicType)
      → require_value_type fbs s.key s.encoding none ≡ ok known
      → is_other_type fbs type_filter known ≡ true
      → IsAccepted s other
      → A
  not_both s known other e o (f, g) = absurd (ground (arith, is_same s known other e (f, g)))

  abbrev pub Lists : BTreeMap Text → List Poll → Result (BTreeMap Text) → Type 0
  Lists topics polls r =
      (topics' : BTreeMap Text) × (r ≡ ok topics')
      × Keeps topics topics'
      × All (IsListed topics') polls

  list_topics-Lists :
      (name_of : Text → Text) (warnings : ContractWarningThrottle) (topics : BTreeMap Text)
      (polls : List Poll)
      → All (IsSteady name_of) polls
      → IsNamed name_of topics
      → Lists topics polls (list_topics fbs display type_filter warnings topics polls)
  unfolding list_topics
  list_topics-Lists name_of warnings topics [] a h = (topics, refl, (λ k n e. e), tt)
  list_topics-Lists name_of warnings topics (timed_out ∷ polls) (s, a) h =
      let (t, e, k, l) = list_topics-Lists name_of warnings topics polls a h in (t, e, k, (tt, l))
  list_topics-Lists name_of warnings topics (failed e ∷ polls) (s, a) h = absurd s
  list_topics-Lists name_of warnings topics (received s ∷ polls) ((sound, agrees), a) h =
      elim (Result-cases (require_value_type fbs s.key s.encoding none)) [
        | is_panic e ↦ absurd (sound e)
        | is_err x e ↦
            let next = (warn warnings s.now s.key (display x)).0 in
            let (t, f, k, l) = list_topics-Lists name_of next topics polls a h in
            (t, rw (list_topics, e) f, k, ((λ known c. cc (c.0, e)), l))
        | is_ok known e ↦ elim (Bool-cases (is_other_type fbs type_filter known)) [
          | inl o ↦
              let (t, f, k, l) = list_topics-Lists name_of warnings topics polls a h in
              let skipped : IsListed t (received s) = λ other c. not_both s known other e o c in
              (t, rw (list_topics, e, o) f, k, (skipped, l))
          | inr o ↦
              let name = known.topic.name in
              let same : name ≡ name_of s.key = agrees known (e, o) in
              let (t, f, k, l) =
                list_topics-Lists name_of warnings (insert s.key name topics) polls a
                  (insert-IsNamed name_of s.key name topics h same) in
              let kept = λ (j n : Text) (g : get j topics ≡ some n).
                k j n (insert-Keeps name_of s.key name topics h same j n g) in
              let found : get s.key t ≡ some name =
                k s.key name (get-insert_self s.key name topics) in
              let listed : IsListed t (received s) =
                λ other c. rw (is_same s known other e c) found in
              elim (Option-cases (get s.key topics)) [
                | inl g ↦ (t, rw (list_topics, e, o, g) f, kept, (listed, l))
                | inr (previous, g) ↦
                    let repeated : list_eq previous name ≡ true =
                      ground (arith, list_eq_iff previous name, h s.key previous g, same) in
                    (t, rw (list_topics, e, o, g, repeated) f, kept, (listed, l))
              ]
        ]
      ]

  empty-IsNamed : (name_of : Text → Text) → IsNamed name_of []
  unfolding get
  empty-IsNamed name_of key name e = cc

  -- Where receiving does not fail, no sample's value contract makes `from_value_encoding` panic, and all accepted
  -- samples of a topic have the type that `name_of` names, the receive loop of `topic list` succeeds and lists each
  -- accepted sample's topic with its type.
  pub list_topics-IsListed :
      (name_of : Text → Text) (polls : List Poll)
      → All (IsSteady name_of) polls
      → (topics : BTreeMap Text) × (list_topics fbs display type_filter default [] polls
          ≡ ok topics)
        × All (IsListed topics) polls
  list_topics-IsListed name_of polls steady =
      let (topics, e, kept, listed) =
        list_topics-Lists name_of default [] polls steady (empty-IsNamed name_of) in
      (topics, e, listed)
