-- ===== src/Commands/RoundTrip/Read.antt =====
-- What the MCAP reader gives of a file that the writer finished.
use csyn.Common.{ℕ, ◌≢◌, length, List, [], ◌∷◌, some, false, ◌≡◌, refl, sym, ap, ◌∙◌, All, map}
use csyn.Common.Text.{Text, to_string}
use csyn.Common.Map.{get}
use csyn.Common.Bytes.{Bytes}
use csyn.Bag.Profile.Fields.{IsHexDigit}
use csyn.Common.Result.{Result, ok, bind_ok}
use csyn.Synapse.{TopicInfo, SynapseFbs, EmbeddedSchema}
use csyn.Types.Topic.{find}
use csyn.Types.Topic.Lookup.{IsPaired}
use csyn.Bag.Profile.{McapNames, Record, ProfileMetadata}
use csyn.Bag.Profile.Accepts.{IsProfile}
use csyn.Bag.Channel.{Schema}
use csyn.Bag.Writer.{McapWriter}
use csyn.Bag.Writer.Steps.{Message, Promises}
use csyn.Commands.Record.Taken.{Taken, message_for, messages_for}
use csyn.Commands.Record.Written.{ok_inj, message_for-HasParts}
use csyn.Commands.Stream.{StreamMessage}
use csyn.Commands.Play.{Turn}
use csyn.Commands.RoundTrip.{IsReadBack, AreReadBack}

-- What a writer is made for.
pub record Made : Type 0 where
  pub library : Text
  pub session_id : Text
  pub source : Text

pub record IsMade (made : Made) : Type 0 where
  pub has_library : made.library ≢ []
  pub has_source : made.source ≢ []
  pub session_size : length made.session_id ≡ 32
  pub session_digits : All IsHexDigit made.session_id

module _ (fbs : SynapseFbs) (names : McapNames) where
  -- The records of a file of the profile with this library, session and source.
  pub record IsFileOf (made : Made) (opened : Result (List (Result Record))) : Type 0 where
    pub metadata : ProfileMetadata
    pub accepted : IsProfile names opened metadata
    pub same_library : metadata.library ≡ made.library
    pub same_session : metadata.session_id ≡ made.session_id
    pub same_source : metadata.source ≡ made.source

  -- The channel on which the reader gives a message has its key, and the schema and the identity of its topic.
  pub record IsRead (m : Message) (message : StreamMessage) : Type 0 where
    pub same_key : message.channel.topic ≡ m.key
    pub same_contents : message.contents ≡ m.contents
    pub schema : Schema
    pub has_schema : message.channel.schema ≡ some schema
    pub same_name : schema.name ≡ m.topic.mcap_schema_name
    pub same_encoding : schema.encoding ≡ names.schema_encoding
    pub same_bfbs :
        (embedded : EmbeddedSchema)
        → fbs.schema_by_name m.topic.schema_file ≡ some embedded
        → schema.contents ≡ embedded.bfbs
    pub same_message_encoding : message.channel.message_encoding ≡ names.message_encoding
    pub same_id : get names.topic_id_key message.channel.metadata ≡ some (to_string m.topic.id)

  abbrev pub AreRead : List Message → List StreamMessage → Type 0
  AreRead [] [] = Unit
  AreRead (m ∷ ms) (message ∷ messages) = IsRead m message × AreRead ms messages
  AreRead _ _ = ⊥

  -- What the MCAP writer and the reader of the `synapse_fbs` crate promise of a file. A writer is made for a library and a source that
  -- are not empty and a session identity of 32 lowercase hexadecimal digits, and holds no message then; adding topics and
  -- messages keeps what it was made for; finishing it leaves a file of the profile with that, and the messages that were written.
  pub record McapFile {W C : Type 0} (lib : McapWriter W C) (promises : Promises lib) : Type 0 where
    pub made_for : W → Made
    pub records : W → List (Result Record)
    pub stream : W → List StreamMessage
    pub creates :
        (made : Made)
        → IsMade made
        → (w : W) × (lib.create made.library made.session_id made.source ≡ ok w)
          × (promises.messages w ≡ [])
          × (made_for w ≡ made)
    pub adding :
        (topic : TopicInfo) (key : Text) (w : W)
        → made_for (lib.add_topic topic key w).1 ≡ made_for w
    pub writing :
        (c : C) (log_time_ns publish_time_ns : ℕ) (contents : Bytes) (w : W)
        → made_for (lib.write c log_time_ns publish_time_ns contents w).2 ≡ made_for w
    pub finishes : (w : W) → lib.finish w ≡ ok tt
    pub profiled : (w : W) → IsMade (made_for w) → IsFileOf (made_for w) (ok (records w))
    pub read_back : (w : W) → AreRead (promises.messages w) (stream w)

  -- The schema name that a bag has for the type is looked up as that type.
  abbrev pub Resolves : Taken → Type 0
  Resolves t = (find fbs t.known.topic.mcap_schema_name ≡ ok (some t.known)) × IsPaired fbs t.known

  -- No shutdown is asked for, and the sample can be put.
  abbrev pub turn_of : StreamMessage → Turn
  turn_of message = record { message = ok message; shutdown = false; published = ok tt }

  IsRead-IsReadBack :
      (t : Taken) (m : Message) (message : StreamMessage)
      → message_for fbs t ≡ ok m
      → Resolves t
      → IsRead m message
      → IsReadBack fbs names t m (turn_of message)
  IsRead-IsReadBack t m message e (found, paired) h =
      let p = message_for-HasParts fbs t m e in
      let topic : m.topic ≡ t.known.topic = sym (ap (λ x. x.topic) p.is_made) in
      record {
        message = message;
        is_read = refl;
        runs = refl;
        accepted = refl;
        same_key = h.same_key;
        same_contents = h.same_contents;
        contract = record {
          schema = h.schema;
          has_schema = h.has_schema;
          resolves = rw (h.same_name, topic) found;
          same_name = h.same_name ∙ ap (λ x. x.mcap_schema_name) topic;
          same_encoding = h.same_encoding;
          same_bfbs = h.same_bfbs t.known.schema (rw topic paired);
          same_message_encoding = h.same_message_encoding;
          same_id = h.same_id ∙ ap (λ x. some (to_string x.id)) topic;
        };
      }

  pub AreRead-AreReadBack :
      (ts : List Taken) (ms : List Message) (messages : List StreamMessage)
      → messages_for fbs ts ≡ ok ms
      → All Resolves ts
      → AreRead ms messages
      → AreReadBack fbs names ts ms (map turn_of messages)
  unfolding messages_for
  AreRead-AreReadBack [] [] [] e a h = tt
  AreRead-AreReadBack [] [] (message ∷ messages) e a h = absurd h
  AreRead-AreReadBack [] (m ∷ ms) messages e a h = cc
  AreRead-AreReadBack (t ∷ ts) [] messages e a h =
      let (m1, e1, f1) = bind_ok _ [] (message_for fbs t) e in
      let (ms1, e2, f2) = bind_ok _ [] (messages_for fbs ts) f1 in cc
  AreRead-AreReadBack (t ∷ ts) (m ∷ ms) [] e a h = absurd h
  AreRead-AreReadBack (t ∷ ts) (m ∷ ms) (message ∷ messages) e (r, a) (h, hs) =
      let (m1, e1, f1) = bind_ok _ (m ∷ ms) (message_for fbs t) e in
      let (ms1, e2, f2) = bind_ok _ (m ∷ ms) (messages_for fbs ts) f1 in
      let lists : (m1 ∷ ms1) ≡ (m ∷ ms) = ok_inj f2 in
      let heads : m1 ≡ m = cc in
      let tails : ms1 ≡ ms = cc in
      (
        IsRead-IsReadBack t m message (e1 ∙ ap ok heads) r h,
        AreRead-AreReadBack ts ms messages (e2 ∙ ap ok tails) a hs,
      )
