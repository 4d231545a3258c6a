-- ===== src/Tests/Bags.antt =====
-- Bags: profile metadata, channels, and a writer that keeps its messages in a list.
use csyn.Common.{ℕ, ◌≡◌, ◌↔◌, inl, refl, arith, List, [], ◌∷◌, ◌++◌, some}
use csyn.Common.Text.{Text, codes, list_eq, to_string, len, eq_ignore_ascii_case}
use csyn.Common.Bytes.{Bytes}
use csyn.Common.Map.{BTreeMap, get, insert}
use csyn.Common.Result.{Result, ok, err, metadata_after_message}
use csyn.Synapse.{TopicInfo}
use csyn.Types.Wrapper.{wrap_fixed_payload}
use csyn.Types.Topic.{
  find, find_named, is_named, from_topic, infer, find_wired, is_wired, decode, to_mcap_payload,
  mcap_publish_time_ns,
}
use csyn.Bag.Profile.{
  McapNames, Record, header, metadata, message, other, ProfileMetadata, is_lowercase_hex_128,
  required, guard, is_time_basis, read_fields, scan, read_header, profile_metadata,
}
use csyn.Bag.Profile.Accepts.{IsProfile, profile_metadata_iff, scan_early_message}
use csyn.Bag.Channel.{Channel, is_compatible, channel_type}
use csyn.Bag.Channel.Accepts.{IsCompatible, channel_type_iff}
use csyn.Bag.Writer.{McapWriter, BagWriter, write_sample}
use csyn.Bag.Writer.Steps.{Message, Promises, IsNamed, contents_of}
use csyn.Bag.Writer.Messages.{IsWritten, write_sample-IsWritten}
use csyn.Bag.Writer.Success.{IsAccepting, write_sample_succeeds}
use csyn.Tests.Catalog.{catalog, attitude, known_attitude}

abbrev pub names : McapNames
names = record {
  profile = codes "synapse/1";
  metadata_name = codes "synapse";
  schema_set_hash_key = codes "hash";
  session_id_key = codes "session";
  source_key = codes "source";
  time_basis_key = codes "basis";
  monotonic_boot = codes "boot";
  unix_epoch = codes "unix";
  correlated = codes "both";
  topic_id_key = codes "topic_id";
  schema_encoding = codes "flatbuffer";
  message_encoding = codes "flatbuffer";
}

abbrev pub hash : Text
hash = codes "0123456789abcdef0123456789abcdef"

abbrev fields : BTreeMap Text
fields =
    (codes "basis", codes "unix")
    ∷ (codes "hash", hash)
    ∷ (codes "session", hash)
    ∷ (codes "source", codes "lab")
    ∷ []

abbrev pub file : List (Result Record)
file =
    ok (header (codes "synapse/1") (codes "csyn/1"))
    ∷ ok other
    ∷ ok (metadata (codes "synapse") fields)
    ∷ ok message
    ∷ []

abbrev pub expected : ProfileMetadata
expected = record {
  library = codes "csyn/1";
  schema_set_hash = hash;
  session_id = hash;
  source = codes "lab";
  time_basis = codes "unix";
}

pub read_file : profile_metadata names (ok file) ≡ ok expected
unfolding profile_metadata read_header scan read_fields required guard is_time_basis
    is_lowercase_hex_128 get list_eq len
read_file = refl

profile_metadata_iff_example :
    (profile_metadata names (ok file) ≡ ok expected) ↔ IsProfile names (ok file) expected
profile_metadata_iff_example = profile_metadata_iff names (ok file) expected

scan_early_message_example :
    scan names
      (codes "csyn/1")
      (ok other ∷ ok message ∷ ok (metadata (codes "synapse") fields) ∷ [])
    ≡ err metadata_after_message
scan_early_message_example =
    scan_early_message names (codes "csyn/1") (ok other ∷ [])
      (ok (metadata (codes "synapse") fields) ∷ []) message (tt, tt) (inl refl)

abbrev pub channel : Channel
channel = record {
  id = 1;
  topic = codes "cub1/att";
  schema = some (record {
    id = 1;
    name = codes "synapse.topic.AttitudeEstimate";
    encoding = codes "flatbuffer";
    contents = 1 ∷ 2 ∷ 3 ∷ [];
  });
  message_encoding = codes "flatbuffer";
  metadata = (codes "topic_id", codes "7") ∷ [];
}

pub channel_is_attitude : channel_type catalog names channel ≡ ok known_attitude
unfolding channel_type is_compatible find find_named is_named from_topic infer find_wired is_wired
    eq_ignore_ascii_case list_eq get to_string
channel_is_attitude = refl

channel_type_iff_example :
    (channel_type catalog names channel ≡ ok known_attitude)
    ↔ IsCompatible catalog names channel known_attitude
channel_type_iff_example = channel_type_iff catalog names channel known_attitude

-- A channel is its key and topic, and the writer is the list of its messages.
abbrev pub ListWriter : Type 0
ListWriter = McapWriter (List Message) (Text × TopicInfo)

abbrev pub lib : ListWriter
lib = record {
  create = λ library session source. ok [];
  add_topic = λ topic key w. (ok (key, topic), w);
  write = λ c log time contents w. (
    ok tt,
    c,
    w
        ++ (record {
          key = c.0;
          topic = c.1;
          log_time_ns = log;
          publish_time_ns = time;
          contents = contents;
        }
            ∷ []),
  );
  finish = λ w. ok tt;
}

pub adds_channel :
    (topic : TopicInfo) (key : Text) (w w' : List Message) (c : Text × TopicInfo)
    → lib.add_topic topic key w ≡ (ok c, w')
    → (c.0 ≡ key) × (c.1 ≡ topic) × (w' ≡ w)
adds_channel topic key w w' c e = ground arith

pub adds_message :
    (c c' : Text × TopicInfo) (log time : ℕ) (contents : Bytes) (w w' : List Message)
    → lib.write c log time contents w ≡ (ok tt, c', w')
    → (c'.0 ≡ c.0)
      × (c'.1 ≡ c.1)
      × (w'
          ≡ w
            ++ (record {
              key = c.0;
              topic = c.1;
              log_time_ns = log;
              publish_time_ns = time;
              contents = contents;
            }
                ∷ []))
adds_message c c' log time contents w w' e = ground arith

abbrev pub lib-Promises : Promises lib
lib-Promises = record {
  messages = λ w. w;
  key_of = λ c. c.0;
  topic_of = λ c. c.1;
  add_topic_ok = adds_channel;
  write_ok = adds_message;
}

abbrev pub payload : Bytes
payload = 57 ∷ 48 ∷ 0 ∷ 0 ∷ 0 ∷ 0 ∷ 0 ∷ 0 ∷ 9 ∷ 9 ∷ 9 ∷ 9 ∷ []

abbrev pub stored : Bytes
stored = 4 ∷ 0 ∷ 0 ∷ 0 ∷ 0xf0 ∷ 0xff ∷ 0xff ∷ 0xff ∷ (payload ++ (6 ∷ 0 ∷ 16 ∷ 0 ∷ 4 ∷ 0 ∷ []))

abbrev pub Bag : Type 0
Bag = BagWriter (List Message) (Text × TopicInfo)

abbrev pub empty_bag : Bag
empty_bag = record { writer = some []; channels = [] }

abbrev one_message : Bag
one_message = record {
  writer = some (
      record {
        key = codes "cub1/att";
        topic = attitude;
        log_time_ns = 5;
        publish_time_ns = 12345;
        contents = stored;
      }
      ∷ []);
  channels = (codes "cub1/att", (codes "cub1/att", attitude)) ∷ [];
}

write_payload :
    write_sample lib catalog (codes "cub1/att") known_attitude 5 payload empty_bag
    ≡ (ok tt, one_message)
unfolding write_sample mcap_publish_time_ns to_mcap_payload decode wrap_fixed_payload get insert
    list_eq
write_payload = refl

pub empty_bag-IsNamed : IsNamed lib catalog lib-Promises empty_bag
unfolding get
empty_bag-IsNamed key c e = cc

write_sample-IsWritten_example :
    IsWritten lib catalog lib-Promises
      (codes "cub1/att")
      known_attitude
      5
      payload
      empty_bag
      one_message
write_sample-IsWritten_example =
    write_sample-IsWritten lib catalog lib-Promises (codes "cub1/att") known_attitude 5 payload
      empty_bag one_message empty_bag-IsNamed write_payload

pub lib-IsAccepting : IsAccepting lib
lib-IsAccepting = record {
  adds = λ topic key w. ((key, topic), w, refl);
  writes = λ c log time contents w. (c, _, refl);
}

pub payload_time : mcap_publish_time_ns catalog known_attitude payload 5 ≡ ok 12345
unfolding mcap_publish_time_ns decode
payload_time = refl

pub payload_stored : to_mcap_payload catalog known_attitude payload ≡ ok stored
unfolding to_mcap_payload decode wrap_fixed_payload
payload_stored = refl

write_sample_succeeds_example :
    (b' : Bag) × (write_sample lib catalog (codes "cub1/att") known_attitude 5 payload empty_bag
      ≡ (ok tt, b'))
    × IsWritten lib catalog lib-Promises (codes "cub1/att") known_attitude 5 payload empty_bag b'
write_sample_succeeds_example =
    write_sample_succeeds lib catalog lib-IsAccepting lib-Promises (codes "cub1/att") known_attitude
      5 payload 12345 stored [] empty_bag payload_time payload_stored refl empty_bag-IsNamed

pub contents_of-empty_bag : contents_of lib catalog lib-Promises empty_bag ≡ []
contents_of-empty_bag = refl
