-- ===== src/Commands/Receive.antt =====
-- The commands of rust/src/main.rs that receive samples: `require_value_type` and `topic_list`. What the clock and the session give
-- for each poll until the shutdown is an input.
pub mod Listed
pub mod Changed
use csyn.Common.{
  ℕ, List, [], ◌∷◌, ◌++◌, Bool, not, ◌==◌, Option, none, some, true, false, ltb, if◌then◌else◌, map,
}
use csyn.Common.Text.{Text, codes, list_eq}
use csyn.Common.Bytes.{Bytes}
use csyn.Common.Map.{BTreeMap, get, insert}
use csyn.Common.Result.{
  Result, Error, ok, err, panic, ◌>>=◌, ◌>>◌, map_err, context, unexpected_type, changed_type,
}
use csyn.Synapse.{SynapseFbs}
use csyn.Types.Topic.{TopicType, from_value_encoding, require, is_some_and, subscribe_keyexpr}
use csyn.ContractWarning.{ContractWarningThrottle, default, warn}

-- A sample, and the time at which it is received.
pub record Sample : Type 0 where
  pub key : Text
  pub encoding : Text
  pub payload : Bytes
  pub now : ℕ

-- What `recv_timeout` gives.
pub data Poll : Type 0 where
  timed_out : Poll
  failed : Error → Poll
  received : Sample → Poll

-- `Instant::now()` at the test of a loop with a deadline, and the poll behind it.
pub record TimedPoll : Type 0 where
  pub now : ℕ
  pub poll : Poll

-- The polls of the loop `while … Instant::now() < deadline`.
unfoldable pub polls_before : (deadline : ℕ) → List TimedPoll → List Poll
polls_before deadline [] = []
polls_before deadline (t ∷ polls) =
    let rest = polls_before deadline polls in if ltb t.now deadline then t.poll ∷ rest else []

module _ (fbs : SynapseFbs) where
  abbrev pub check_expected : Text → Option TopicType → TopicType → Result TopicType
  check_expected key none actual = ok actual
  check_expected key (some expected) actual =
      if expected.topic.id == actual.topic.id
      then ok actual
      else err (unexpected_type key actual.topic.name expected.topic.name)

  unfoldable pub require_value_type : Text → Text → Option TopicType → Result TopicType
  require_value_type key encoding expected = do
    actual ←
        map_err (context (codes "topic " ++ (key ++ codes " has no valid Synapse value contract")))
          (from_value_encoding fbs encoding)
    check_expected key expected actual

  -- `ty.as_deref().map(TopicType::require).transpose()`
  unfoldable pub require_filter : Option Text → Result (Option TopicType)
  require_filter none = ok none
  require_filter (some ty) = do known ← require fbs ty; ok (some known)

  -- `filter.as_deref().map(subscribe_keyexpr).unwrap_or_else(…)`
  unfoldable pub filter_keyexpr : Option Text → Result Text
  filter_keyexpr none = ok (codes "**")
  filter_keyexpr (some filter) = subscribe_keyexpr fbs filter

  -- The test that passes over a sample of another type than the one asked for.
  abbrev pub is_other_type : Option TopicType → TopicType → Bool
  is_other_type type_filter known =
      is_some_and (λ expected. not (expected.topic.id == known.topic.id)) type_filter

  -- How an error is written is an input.
  module _ (display : Error → Text) (type_filter : Option TopicType) where
    -- The receive loop of `topic_list`: the names of the types of the topics that were seen.
    unfoldable pub list_topics :
        ContractWarningThrottle → BTreeMap Text → List Poll → Result (BTreeMap Text)
    list_topics warnings topics [] = ok topics
    list_topics warnings topics (timed_out ∷ polls) = list_topics warnings topics polls
    list_topics warnings topics (failed e ∷ polls) =
        err (context (codes "failed to receive sample") e)
    list_topics warnings topics (received s ∷ polls) =
        elim (require_value_type s.key s.encoding none) [
          | panic ↦ panic
          | err e ↦ list_topics (warn warnings s.now s.key (display e)).0 topics polls
          | ok known ↦
              let passed = list_topics warnings topics polls in
              let name = known.topic.name in
              let added = list_topics warnings (insert s.key name topics) polls in
              if is_other_type type_filter known then passed else elim (get s.key topics) [
                | none ↦ added
                | some previous ↦
                    if list_eq previous name then added else err (changed_type s.key previous name)
              ]
        ]

  topic_line : Text × Text → Text
  topic_line (topic, topic_type) = topic ++ (codes " [" ++ (topic_type ++ codes "]"))

  -- `topic_list`, the lines that it prints. `subscribe` opens the session, subscribes and gives the deadline.
  unfoldable pub topic_list :
      (display : Error → Text)
      → (subscribe : Text → Result ℕ) → (filter ty : Option Text) → List TimedPoll
      → Result (List Text)
  unfolding topic_line
  topic_list display subscribe filter ty polls = do
    keyexpr ← filter_keyexpr filter
    type_filter ← require_filter ty
    deadline ← subscribe keyexpr
    topics ← list_topics display type_filter default [] (polls_before deadline polls)
    ok (map topic_line topics)
