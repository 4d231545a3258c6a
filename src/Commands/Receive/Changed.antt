-- ===== src/Commands/Receive/Changed.antt =====
-- `topic list` fails only where a topic changes its type.
use csyn.Common.{
  List, [], ◌∷◌, Option, none, some, All, All-map, ◌≡◌, ◌≢◌, ◌↔◌, refl, arith, Option-cases, inl,
  inr, Bool-cases, unwrap_or,
}
use csyn.Common.Text.{Text, list_eq}
use csyn.Common.TextOrder.{list_eq_iff}
use csyn.Common.Map.{BTreeMap, get, insert}
use csyn.Common.Map.Laws.{get-insert, get-insert_self}
use csyn.Common.Result.{
  Error, ok, panic, Result-cases, is_ok, is_err, is_panic, err_not_ok, panic_not_ok,
}
use csyn.Synapse.{SynapseFbs}
use csyn.Types.Topic.{TopicType}
use csyn.ContractWarning.{ContractWarningThrottle, default, warn}
use csyn.Commands.Receive.{
  Sample, Poll, timed_out, failed, received, require_value_type, is_other_type, list_topics,
}
use csyn.Commands.Receive.Listed.{
  IsAccepted, IsSteady, IsListed, Keeps, is_same, not_both, list_topics-IsListed,
}

module _ (fbs : SynapseFbs) (display : Error → Text) (type_filter : Option TopicType) where
  -- A name that is there already, or that is new, is put in.
  insert-Keeps :
      (key name : Text) (topics : BTreeMap Text)
      → ((previous : Text) → get key topics ≡ some previous → previous ≡ name)
      → Keeps fbs display type_filter topics (insert key name topics)
  insert-Keeps key name topics h k n f =
      ground (arith, get-insert k key name topics, list_eq_iff key k, h n)

  -- What success says.
  abbrev Says : BTreeMap Text → List Poll → BTreeMap Text → Type 0
  Says topics polls topics' =
      Keeps fbs display type_filter topics topics'
      × All (IsListed fbs display type_filter topics') polls

  -- A sample that counts, whose topic is not listed with another type.
  counted :
      (s : Sample) (known : TopicType) (topics : BTreeMap Text) (polls : List Poll)
      (topics' : BTreeMap Text)
      → require_value_type fbs s.key s.encoding none ≡ ok known
      → ((previous : Text) → get s.key topics ≡ some previous → previous ≡ known.topic.name)
      → Says (insert s.key known.topic.name topics) polls topics'
      → Says topics (received s ∷ polls) topics'
  counted s known topics polls topics' e agrees (k, l) =
      let name = known.topic.name in
      let found : get s.key topics' ≡ some name =
        k s.key name (get-insert_self s.key name topics) in
      let listed : IsListed fbs display type_filter topics' (received s) =
        λ other c. rw (is_same fbs display type_filter s known other e c) found in
      ((λ j n g. k j n (insert-Keeps s.key name topics agrees j n g)), (listed, l))

  list_topics-Says :
      (warnings : ContractWarningThrottle) (topics : BTreeMap Text) (polls : List Poll)
      (topics' : BTreeMap Text)
      → list_topics fbs display type_filter warnings topics polls ≡ ok topics'
      → Says topics polls topics'
  unfolding list_topics
  list_topics-Says warnings topics [] topics' h =
      let same : topics ≡ topics' = cc in ((λ k n e. rw (← same) e), tt)
  list_topics-Says warnings topics (timed_out ∷ polls) topics' h =
      let (k, l) = list_topics-Says warnings topics polls topics' h in (k, (tt, l))
  list_topics-Says warnings topics (failed e ∷ polls) topics' h = cc
  list_topics-Says warnings topics (received s ∷ polls) topics' h =
      elim (Result-cases (require_value_type fbs s.key s.encoding none)) [
        | is_panic e ↦ absurd (panic_not_ok (rw (list_topics, e) at h))
        | is_err x e ↦
            let (k, l) =
              list_topics-Says (warn warnings s.now s.key (display x)).0 topics polls topics'
                (rw (list_topics, e) at h) in
            (k, ((λ known c. cc (c.0, e)), l))
        | is_ok known e ↦ elim (Bool-cases (is_other_type fbs type_filter known)) [
          | inl o ↦
              let (k, l) =
                list_topics-Says warnings topics polls topics' (rw (list_topics, e, o) at h) in
              (k, ((λ other c. not_both fbs display type_filter s known other e o c), l))
          | inr o ↦
              let name = known.topic.name in
              elim (Option-cases (get s.key topics)) [
                | inl g ↦
                    counted s known topics polls topics' e (λ previous f. cc)
                      (list_topics-Says warnings (insert s.key name topics) polls topics'
                        (rw (list_topics, e, o, g) at h))
                | inr (previous, g) ↦ elim (Bool-cases (list_eq previous name)) [
                  | inr differs ↦ absurd (err_not_ok (rw (list_topics, e, o, g, differs) at h))
                  | inl same ↦
                      counted s known topics polls topics' e
                        (λ p f. ground (arith, list_eq_iff previous name))
                        (list_topics-Says warnings (insert s.key name topics) polls topics'
                          (rw (list_topics, e, o, g, same) at h))
                ]
              ]
        ]
      ]

  -- Receiving does not fail, and no value contract makes `from_value_encoding` panic.
  abbrev pub IsReceivable : Poll → Type 0
  IsReceivable timed_out = Unit
  IsReceivable (failed e) = ⊥
  IsReceivable (received s) = require_value_type fbs s.key s.encoding none ≢ panic

  -- If the sample counts, it has the type that `name_of` names for its topic.
  abbrev pub IsNamedBy : (Text → Text) → Poll → Type 0
  IsNamedBy name_of timed_out = Unit
  IsNamedBy name_of (failed e) = Unit
  IsNamedBy name_of (received s) =
      (known : TopicType)
      → IsAccepted fbs display type_filter s known
      → known.topic.name ≡ name_of s.key

  both-IsSteady :
      (name_of : Text → Text) (polls : List Poll)
      → All IsReceivable polls
      → All (IsNamedBy name_of) polls
      → All (IsSteady fbs display type_filter name_of) polls
  both-IsSteady name_of [] a b = tt
  both-IsSteady name_of (timed_out ∷ polls) (p, a) (q, b) = (tt, both-IsSteady name_of polls a b)
  both-IsSteady name_of (failed e ∷ polls) (p, a) (q, b) = absurd p
  both-IsSteady name_of (received s ∷ polls) (p, a) (q, b) =
      ((p, q), both-IsSteady name_of polls a b)

  listed-IsNamedBy :
      (topics : BTreeMap Text) (p : Poll)
      → IsListed fbs display type_filter topics p
      → IsNamedBy (λ key. unwrap_or (get key topics) []) p
  listed-IsNamedBy topics timed_out h = tt
  listed-IsNamedBy topics (failed e) h = tt
  listed-IsNamedBy topics (received s) h = λ known c. rw (h known c) refl

  -- Where receiving does not fail and no value contract makes `from_value_encoding` panic, the receive loop of `topic list`
  -- succeeds exactly where all accepted samples of a topic have one type.
  pub list_topics_iff :
      (polls : List Poll)
      → All IsReceivable polls
      → ((topics : BTreeMap Text) × (list_topics fbs display type_filter default [] polls
            ≡ ok topics))
        ↔ ((name_of : Text → Text) × All (IsNamedBy name_of) polls)
  list_topics_iff polls a = (
    (λ (topics, h). (
      (λ key. unwrap_or (get key topics) []),
      All-map (IsListed fbs display type_filter topics)
          (IsNamedBy (λ key. unwrap_or (get key topics) [])) (listed-IsNamedBy topics) polls
          (list_topics-Says default [] polls topics h).1,
    )),
    (λ (name_of, b).
        let (topics, e, l) =
          list_topics-IsListed fbs display type_filter name_of polls
            (both-IsSteady name_of polls a b) in
        (topics, e)),
  )
