-- ===== src/Tests/Recorded.antt =====
-- A recording of a few samples.
use csyn.Common.{
  ℕ, ◌+◌, ◌*◌, ◌^◌, List, [], ◌∷◌, ◌++◌, true, false, none, some, All, ◌≡◌, refl, arith,
}
use csyn.Common.Text.{Text, codes, list_eq, find_from, starts_with}
use csyn.Common.Map.{get}
use csyn.Common.Result.{Error, ok}
use csyn.ContractWarning.{default}
use csyn.Types.Wrapper.{wrap_fixed_payload}
use csyn.Types.Topic.{
  TopicType, from_topic, canonical, from_value_encoding, decode, to_mcap_payload,
  mcap_publish_time_ns,
}
use csyn.Bag.Channel.{unix_now_ns}
use csyn.Bag.Writer.Steps.{Message}
use csyn.Commands.Clock.{StdTime}
use csyn.Commands.Receive.{Sample, Poll, timed_out, received, require_value_type}
use csyn.Commands.Record.Loop.{Round, record_loop}
use csyn.Commands.Record.Taken.{Taken, accept, taken, message_for, messages_for}
use csyn.Commands.Record.Written.{IsOpen}
use csyn.Commands.Record.Recorded.{IsSound, IsTypedAs, Records, record_loop-Records}
use csyn.Tests.Catalog.{catalog, attitude, encode, known_attitude}
use csyn.Tests.Bags.{
  lib, lib-Promises, lib-IsAccepting, payload, stored, empty_bag, empty_bag-IsNamed,
}

abbrev pub sample : Sample
sample = record {
  key = codes "cub1/att";
  encoding = codes "zenoh/bytes;" ++ encode attitude;
  payload = payload;
  now = 0;
}

abbrev round : Poll → Round
round poll = record { now = 0; poll = poll; clock = some 5 }

abbrev pub rounds : List Round
rounds =
    round (received sample)
    ∷ (round timed_out
        ∷ (round (received (record sample { encoding = codes "zenoh/bytes" }))
            ∷ (round (received sample) ∷ (round (received sample) ∷ []))))

abbrev pub display : Error → Text
display e = codes "rejected"

abbrev pub type_of : Text → TopicType
type_of key = known_attitude

-- One sample of twelve bytes, whose first eight are its time.
abbrev pub message : Message
message = record {
  key = codes "cub1/att";
  topic = attitude;
  log_time_ns = 5;
  publish_time_ns = 12345;
  contents = stored;
}

-- The limit is two.
abbrev pub two_taken : List Taken
two_taken = taken catalog none none (some 2) 0 rounds

pub rounds-AreSound : All (λ r. IsSound catalog none r.poll) rounds
unfolding require_value_type from_value_encoding canonical find_from starts_with from_topic list_eq
rounds-AreSound = ((λ e. cc), (tt, ((λ e. cc), ((λ e. cc), ((λ e. cc), tt)))))

pub rounds-AreAttitudes : All (IsTypedAs type_of) two_taken
unfolding accept require_value_type from_value_encoding canonical find_from starts_with from_topic
    list_eq
rounds-AreAttitudes = (refl, (refl, tt))

pub rounds-AreStored : messages_for catalog two_taken ≡ ok (message ∷ (message ∷ []))
unfolding messages_for message_for unix_now_ns accept require_value_type from_value_encoding
    canonical find_from starts_with from_topic list_eq to_mcap_payload mcap_publish_time_ns decode
    wrap_fixed_payload
rounds-AreStored = refl

empty_bag-IsOpen : IsOpen lib catalog lib-Promises type_of empty_bag
unfolding get
empty_bag-IsOpen = record {
  writer = [];
  has_writer = refl;
  named = empty_bag-IsNamed;
  typed = λ key. refl;
}

record_loop-Records_example :
    Records lib catalog display lib-Promises lib-IsAccepting type_of none none
      (some 2)
      empty_bag
      0
      (message ∷ (message ∷ []))
      (record_loop lib catalog display none none (some 2) default 0 rounds empty_bag)
record_loop-Records_example =
    record_loop-Records lib catalog display lib-Promises lib-IsAccepting type_of none none (some 2)
      default 0 rounds empty_bag (message ∷ (message ∷ [])) rounds-AreSound rounds-AreAttitudes
      rounds-AreStored (omega arith) empty_bag-IsOpen

-- A clock without floating point: a rate is a number, and a difference is divided by nothing.
abbrev pub time : StdTime ℕ
time = record {
  is_below_zero = λ x. false;
  is_at_most_zero = λ x. false;
  is_above_zero = λ x. true;
  is_finite = λ x. true;
  from_secs_f64 = λ x. some (x * 10 ^ 9);
  add = λ x y. some (x + y);
  from_rate = λ x. some 1;
  scaled = λ x delta. some delta;
}
