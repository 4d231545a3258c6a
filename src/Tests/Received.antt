-- ===== src/Tests/Received.antt =====
-- The commands that receive samples, over a few polls.
use csyn.Common.{ℕ, List, [], ◌∷◌, ◌++◌, none, some, if◌then◌else◌, All, ◌≡◌, ◌↔◌, refl, ap, map}
use csyn.Common.Text.{Text, codes, list_eq, text_lt, find_from, starts_with, eq_ignore_ascii_case}
use csyn.Common.Map.{BTreeMap, get, insert}
use csyn.Common.Result.{Result, Error, ok, err, changed_type}
use csyn.Types.Topic.{
  TopicType, is_named, find_named, from_topic, canonical, from_value_encoding, find, require,
}
use csyn.ContractWarning.{default, warn}
use csyn.Commands.Receive.{
  Sample, Poll, TimedPoll, polls_before, timed_out, received, require_value_type, require_filter,
  filter_keyexpr, list_topics, topic_list,
}
use csyn.Commands.Receive.Changed.{IsReceivable, IsNamedBy, list_topics_iff}
use csyn.Commands.Receive.Listed.{IsSteady, IsListed, list_topics-IsListed}
use csyn.Tests.Catalog.{catalog, attitude, text_status, encode, known_attitude, known_text}

abbrev sample : Text → Text → Sample
sample key encoding = record { key = key; encoding = encoding; payload = []; now = 5 }

abbrev att_sample : Sample
att_sample = sample (codes "cub1/att") (codes "zenoh/bytes;" ++ encode attitude)

abbrev text_sample : Sample
text_sample = sample (codes "cub1/text") (encode text_status)

abbrev odd_sample : Sample
odd_sample = sample (codes "cub1/odd") (codes "zenoh/bytes")

abbrev polls : List Poll
polls =
    received att_sample
    ∷ (timed_out ∷ (received odd_sample ∷ (received text_sample ∷ (received att_sample ∷ []))))

abbrev display : Error → Text
display e = codes "rejected"

-- The deadline is 9.
abbrev subscribe : Text → Result ℕ
subscribe keyexpr = ok 9

abbrev at : Poll → TimedPoll
at poll = record { now = 5; poll = poll }

abbrev late : TimedPoll
late = record { now = 9; poll = received (sample (codes "cub1/late") (encode text_status)) }

lines_of_polls :
    topic_list catalog display subscribe none none (map at polls ++ (late ∷ []))
    ≡ ok (codes "cub1/att [AttitudeEstimate]" ∷ (codes "cub1/text [TextStatus]" ∷ []))
unfolding topic_list polls_before filter_keyexpr require_filter list_topics require_value_type
    from_value_encoding canonical find_from starts_with from_topic list_eq text_lt get insert warn
lines_of_polls = refl

lines_of_type :
    topic_list catalog display subscribe none (some (codes "AttitudeEstimate")) (map at polls)
    ≡ ok (codes "cub1/att [AttitudeEstimate]" ∷ [])
unfolding topic_list polls_before filter_keyexpr require_filter require find find_named is_named
    eq_ignore_ascii_case list_topics require_value_type from_value_encoding canonical find_from
    starts_with from_topic list_eq text_lt get insert warn
lines_of_type = refl

changed : Poll
changed = received (sample (codes "cub1/att") (encode text_status))

lines_of_changed :
    topic_list catalog display subscribe none none (at (received att_sample) ∷ (at changed ∷ []))
    ≡ err (changed_type (codes "cub1/att") (codes "AttitudeEstimate") (codes "TextStatus"))
unfolding changed topic_list polls_before filter_keyexpr require_filter list_topics
    require_value_type from_value_encoding canonical find_from starts_with from_topic list_eq
    text_lt get insert warn
lines_of_changed = refl

abbrev name_of : Text → Text
name_of key =
    if list_eq key (codes "cub1/att") then codes "AttitudeEstimate" else codes "TextStatus"

named : (a b : TopicType) → ok a ≡ ok b → b.topic.name ≡ a.topic.name
named a b e = let same : b ≡ a = cc in ap (λ (t : TopicType). t.topic.name) same

polls-IsSteady : All (IsSteady catalog display none name_of) polls
unfolding require_value_type from_value_encoding canonical find_from starts_with from_topic list_eq
polls-IsSteady = (
  ((λ e. cc), λ known c. named known_attitude known c.0),
  (
    tt,
    (
      ((λ e. cc), λ known c. cc (c.0)),
      (
        ((λ e. cc), λ known c. named known_text known c.0),
        (((λ e. cc), λ known c. named known_attitude known c.0), tt),
      ),
    ),
  ),
)

list_topics-IsListed_example :
    (topics : BTreeMap Text) × (list_topics catalog display none default [] polls ≡ ok topics)
    × All (IsListed catalog display none topics) polls
list_topics-IsListed_example =
    list_topics-IsListed catalog display none name_of polls polls-IsSteady

polls-AreReceivable : All (IsReceivable catalog display none) polls
unfolding require_value_type from_value_encoding canonical find_from starts_with from_topic list_eq
polls-AreReceivable = ((λ e. cc), (tt, ((λ e. cc), ((λ e. cc), ((λ e. cc), tt)))))

list_topics_iff_example :
    ((topics : BTreeMap Text) × (list_topics catalog display none default [] polls ≡ ok topics))
    ↔ ((names : Text → Text) × All (IsNamedBy catalog display none names) polls)
list_topics_iff_example = list_topics_iff catalog display none polls polls-AreReceivable
