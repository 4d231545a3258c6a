-- ===== src/Tests/Bagged.antt =====
-- The recording of Tests/Recorded as a command, and a replay of its file.
use csyn.Common.{ℕ, List, [], ◌∷◌, ◌++◌, none, some, All, ◌≡◌, ◌≢◌, refl, inl, inr, arith, map}
use csyn.Common.Text.{
  Text, codes, list_eq, to_string, contains, eq_ignore_ascii_case, find_from, starts_with,
}
use csyn.Common.Map.{BTreeMap, get}
use csyn.Common.Result.{Result, ok}
use csyn.Types.Topic.{
  find, find_named, is_named, from_topic, infer, find_wired, is_wired, subscribe_keyexpr, canonical,
  from_value_encoding,
}
use csyn.Common.Bytes.{Bytes}
use csyn.Synapse.{TopicInfo}
use csyn.Bag.Profile.{Record, header, metadata, ProfileMetadata}
use csyn.Bag.Profile.Fields.{IsHexDigit, HasFields}
use csyn.Bag.Profile.Accepts.{HasMetadata}
use csyn.Bag.Writer.{McapWriter}
use csyn.Bag.Writer.Success.{IsAccepting}
use csyn.Bag.Channel.{Channel}
use csyn.Bag.Writer.Steps.{Message, Promises}
use csyn.Commands.Clock.{optional_deadline}
use csyn.Commands.Receive.{require_value_type, require_filter}
use csyn.Commands.Record.{BagRecordOptions, RecordRun}
use csyn.Commands.Record.Taken.{accept}
use csyn.Commands.Stream.{StreamMessage}
use csyn.Commands.RoundTrip.Read.{Made, IsMade, IsFileOf, IsRead, AreRead, McapFile, Resolves}
use csyn.Commands.RoundTrip.Bagged.{Replays, bag_record-bag_play}
use csyn.Tests.Catalog.{catalog, schema, catalog-ChecksSize}
use csyn.Tests.Bags.{names, hash}
use csyn.Tests.Recorded.{
  rounds, type_of, message, two_taken, time, display, rounds-AreSound, rounds-AreAttitudes,
  rounds-AreStored,
}

abbrev channel_for : Message → Channel
channel_for m = record {
  id = 1;
  topic = m.key;
  schema = some (record {
    id = 1;
    name = m.topic.mcap_schema_name;
    encoding = names.schema_encoding;
    contents = schema.bfbs;
  });
  message_encoding = names.message_encoding;
  metadata = (names.topic_id_key, to_string m.topic.id) ∷ [];
}

abbrev read : Message → StreamMessage
read m = record { channel = channel_for m; log_time = m.log_time_ns; contents = m.contents }

read-IsRead : (m : Message) → IsRead catalog names m (read m)
unfolding get list_eq
read-IsRead m = record {
  same_key = refl;
  same_contents = refl;
  schema = _;
  has_schema = refl;
  same_name = refl;
  same_encoding = refl;
  same_bfbs = λ embedded e. cc;
  same_message_encoding = refl;
  same_id = refl;
}

messages-AreRead : (ms : List Message) → AreRead catalog names ms (map read ms)
messages-AreRead [] = tt
messages-AreRead (m ∷ ms) = (read-IsRead m, messages-AreRead ms)

-- A writer keeps what it is made for, and its messages.
abbrev Store : Type 0
Store = Made × List Message

abbrev bag_lib : McapWriter Store (Text × TopicInfo)
bag_lib = record {
  create = λ library session source.
      ok (record { library = library; session_id = session; source = source }, []);
  add_topic = λ topic key w. (ok (key, topic), w);
  write = λ c log time contents w. (
    ok tt,
    c,
    (
      w.0,
      w.1
          ++ (record {
            key = c.0;
            topic = c.1;
            log_time_ns = log;
            publish_time_ns = time;
            contents = contents;
          }
              ∷ []),
    ),
  );
  finish = λ w. ok tt;
}

adds :
    (topic : TopicInfo) (key : Text) (w w' : Store) (c : Text × TopicInfo)
    → bag_lib.add_topic topic key w ≡ (ok c, w')
    → (c.0 ≡ key) × (c.1 ≡ topic) × (w'.1 ≡ w.1)
adds topic key w w' c e = ground arith

writes :
    (c c' : Text × TopicInfo) (log time_ns : ℕ) (contents : Bytes) (w w' : Store)
    → bag_lib.write c log time_ns contents w ≡ (ok tt, c', w')
    → (c'.0 ≡ c.0)
      × (c'.1 ≡ c.1)
      × (w'.1
          ≡ w.1
            ++ (record {
              key = c.0;
              topic = c.1;
              log_time_ns = log;
              publish_time_ns = time_ns;
              contents = contents;
            }
                ∷ []))
writes c c' log time_ns contents w w' e = ground arith

abbrev bag_lib-Promises : Promises bag_lib
bag_lib-Promises = record {
  messages = λ w. w.1;
  key_of = λ c. c.0;
  topic_of = λ c. c.1;
  add_topic_ok = adds;
  write_ok = writes;
}

abbrev bag_lib-IsAccepting : IsAccepting bag_lib
bag_lib-IsAccepting = record {
  adds = λ topic key w. ((key, topic), w, refl);
  writes = λ c log time contents w. (c, _, refl);
}

abbrev fields_of : Made → BTreeMap Text
fields_of made =
    (codes "basis", codes "unix")
    ∷ (codes "hash", hash)
    ∷ (codes "session", made.session_id)
    ∷ (codes "source", made.source)
    ∷ []

abbrev metadata_of : Made → ProfileMetadata
metadata_of made = record {
  library = made.library;
  schema_set_hash = hash;
  session_id = made.session_id;
  source = made.source;
  time_basis = codes "unix";
}

-- The file names what its writer was made for.
abbrev records_of : Store → List (Result Record)
records_of w =
    ok (header (codes "synapse/1") w.0.library)
    ∷ ok (metadata (codes "synapse") (fields_of w.0))
    ∷ []

hash_digits : All IsHexDigit hash
hash_digits = ground arith

fields_of-HasFields :
    (made : Made) → IsMade made → HasFields names made.library (fields_of made) (metadata_of made)
unfolding get list_eq
fields_of-HasFields made h = record {
  same_library = refl;
  has_hash = (refl, λ e. cc);
  has_session = (refl, λ e. nonempty (e));
  has_source = (refl, h.has_source);
  has_basis = (refl, λ e. cc);
  hash = (refl, hash_digits);
  session = (h.session_size, h.session_digits);
  basis = inr (inl refl);
}
  where
    nonempty : made.session_id ≢ []
    nonempty e = ground (arith, e, h.session_size)

records_of-IsFileOf : (w : Store) → IsMade w.0 → IsFileOf catalog names w.0 (ok (records_of w))
records_of-IsFileOf w h = record {
  metadata = metadata_of w.0;
  accepted = record {
    library = w.0.library;
    records = _;
    begins = refl;
    named = h.has_library;
    rest = HasMetadata.found refl (fields_of-HasFields w.0 h);
  };
  same_library = refl;
  same_session = refl;
  same_source = refl;
}

abbrev mcap_file : McapFile catalog names bag_lib bag_lib-Promises
mcap_file = record {
  made_for = λ w. w.0;
  records = records_of;
  stream = λ w. map read w.1;
  creates = λ made is_made. ((made, []), refl, refl, refl);
  adding = λ topic key w. refl;
  writing = λ c log time contents w. refl;
  finishes = λ w. refl;
  profiled = records_of-IsFileOf;
  read_back = λ w. messages-AreRead w.1;
}

abbrev options : BagRecordOptions ℕ
options = record {
  output = codes "flight.mcap";
  keyexpr = codes "cub1/**";
  ty = none;
  source = codes "lab";
  duration = none;
  max_messages = some 2;
}

abbrev run : RecordRun
run = record {
  subscribe = λ key. ok tt;
  file = ok tt;
  session_id = codes "0123456789abcdef0123456789abcdef";
  version = codes "1";
  started = 0;
  rounds = rounds;
}

keyexpr_is : subscribe_keyexpr catalog (codes "cub1/**") ≡ ok (codes "cub1/**")
unfolding subscribe_keyexpr contains
keyexpr_is = refl

no_filter : require_filter catalog none ≡ ok none
unfolding require_filter
no_filter = refl

no_deadline : optional_deadline time 0 none ≡ ok none
unfolding optional_deadline
no_deadline = refl

types-Resolve : All (Resolves catalog names) two_taken
unfolding accept require_value_type from_value_encoding canonical find_from starts_with from_topic
    list_eq find find_named is_named infer find_wired is_wired eq_ignore_ascii_case
types-Resolve = ((refl, refl), ((refl, refl), tt))

bag_record-bag_play_example :
    Replays catalog names time bag_lib display bag_lib-Promises bag_lib-IsAccepting mcap_file
      type_of 1 run options none none
      (message ∷ (message ∷ []))
bag_record-bag_play_example =
    bag_record-bag_play catalog names time bag_lib display bag_lib-Promises bag_lib-IsAccepting
      mcap_file type_of 1 run options none none (codes "cub1/**") (message ∷ (message ∷ []))
      catalog-ChecksSize (λ d. (d, refl)) refl keyexpr_is refl no_filter refl (λ e. cc) refl
      hash_digits no_deadline rounds-AreSound rounds-AreAttitudes types-Resolve rounds-AreStored
      (omega arith)
