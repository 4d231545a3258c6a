-- ===== src/Tests/Watched.antt =====
-- A sample that is published a few times, and a topic that is observed.
use csyn.Common.{ℕ, ◌+◌, ◌++◌, List, [], ◌∷◌, false, none, some, All, ◌≡◌, refl, arith}
use csyn.Common.Text.{codes, list_eq, find_from, starts_with, contains, eq_ignore_ascii_case}
use csyn.Common.Result.{ok}
use csyn.ContractWarning.{default}
use csyn.Types.Topic.{
  from_topic, canonical, from_value_encoding, publish_key, require, find, find_named, is_named,
  infer, decode, zenoh_encoding,
}
use csyn.Commands.Trace.{Publication, Event, put, puts_of}
use csyn.Commands.Receive.{TimedPoll, timed_out, received, require_value_type}
use csyn.Commands.Publish.{TopicPubArgs, PubRun, payload_of, delay_of, send, pub_loop, topic_pub}
use csyn.Commands.Publish.Sent.{replicate, pub_loop-EndsAfter, pub_loop_limit}
use csyn.Commands.Publish.Once.{EndsOnce, topic_pub-EndsOnce}
use csyn.Commands.Clock.{StdTime}
use csyn.Commands.Observe.{no_counts, observe_loop}
use csyn.Commands.Observe.Valid.{valid_before, counted, IsSound}
use csyn.Commands.Observe.Counted.{Observes, observe_loop-Observes}
use csyn.Tests.Catalog.{catalog, attitude, encode}
use csyn.Tests.Bags.{payload}
use csyn.Tests.Recorded.{sample, time, display}

abbrev publication : Publication
publication = record {
  key = codes "cub1/att";
  payload = payload;
  encoding = codes "zenoh/bytes;" ++ encode attitude;
}

abbrev pub run : PubRun
run = record {
  read = λ path. ok payload;
  session = ok tt;
  shutdown = λ round. false;
  published = λ round. ok tt;
}

-- The shutdown is asked for before the third round.
abbrev stopped_run : PubRun
stopped_run = record run { shutdown = λ round. list_eq (round ∷ []) (2 ∷ []) }

pub_loop-EndsAfter_example :
    (events : List Event) × (pub_loop stopped_run (some 10) none publication 5 0 0
      ≡ (ok (some (0 + 2)), events))
    × (puts_of events ≡ replicate 2 publication)
unfolding list_eq
pub_loop-EndsAfter_example =
    pub_loop-EndsAfter stopped_run 10 none publication 2 5 0 (omega arith) (omega arith)
      (refl, refl, (refl, refl, refl))

pub_loop_limit_example :
    (events : List Event) × (pub_loop run (some 10) (some 3) publication 4 0 0
      ≡ (ok (some 3), events))
    × (puts_of events ≡ replicate 3 publication)
pub_loop_limit_example =
    pub_loop_limit run 10 3 4 publication (omega arith) (omega arith) (λ i. refl) (λ i. refl)

abbrev without_rate : TopicPubArgs ℕ
without_rate = record {
  topic = codes "cub1/att";
  ty = codes "AttitudeEstimate";
  file = some (codes "sample.bin");
  text = none;
  rate = 0;
  count = some 5;
}

abbrev no_rate_time : StdTime ℕ
no_rate_time = record time { is_above_zero = λ rate. false }

-- A limit of five, without a rate: one sample.
topic_pub-EndsOnce_example :
    EndsOnce catalog run without_rate (topic_pub no_rate_time catalog 1 run without_rate)
topic_pub-EndsOnce_example = topic_pub-EndsOnce catalog run without_rate no_rate_time 0 refl

one_sample : topic_pub no_rate_time catalog 1 run without_rate ≡ (ok (some 1), put publication ∷ [])
unfolding topic_pub payload_of publish_key contains require find find_named is_named
    eq_ignore_ascii_case list_eq from_topic infer decode delay_of pub_loop send zenoh_encoding
one_sample = refl

abbrev polls : List TimedPoll
polls =
    record { now = 0; poll = received sample }
    ∷ (record { now = 1; poll = timed_out }
        ∷ (record { now = 2; poll = received (record sample { encoding = codes "zenoh/bytes" }) }
            ∷ (record { now = 3; poll = received sample }
                ∷ (record { now = 9; poll = received sample } ∷ []))))

polls-AreSound : All (λ t. IsSound catalog t.poll) polls
unfolding require_value_type from_value_encoding canonical find_from starts_with from_topic list_eq
polls-AreSound = ((λ e. cc), (tt, ((λ e. cc), ((λ e. cc), ((λ e. cc), tt)))))

-- The deadline is before the last sample: two samples count.
observe_loop-Observes_example :
    Observes catalog display 5
      (counted (valid_before catalog 5 polls))
      (observe_loop catalog display 5 default no_counts polls)
observe_loop-Observes_example = observe_loop-Observes catalog display 5 polls default polls-AreSound
