-- ===== src/Bag/Writer/Steps.antt =====
-- What the steps of `write_sample` leave, over a writer that does what its documentation says.
use csyn.Common.{
  ℕ, List, [], ◌∷◌, ◌++◌, Option, none, some, false, ◌≡◌, refl, ◌∙◌, arith, Option-cases, inl, inr,
}
use csyn.Common.Text.{Text, codes, list_eq}
use csyn.Common.TextOrder.{list_eq_iff}
use csyn.Common.Bytes.{Bytes}
use mathlib.Core.Path.{subst}
use csyn.Common.Map.{get, insert}
use csyn.Common.Map.Laws.{get-insert, get-insert_self}
use csyn.Common.Result.{Result, ok, err, panic, map_err, context}
use csyn.Synapse.{TopicInfo, SynapseFbs}
use csyn.Types.Topic.{TopicType}
use csyn.Bag.Writer.{McapWriter, BagWriter, added, ensure_channel, channel_of, write_message}

pub record Message : Type 0 where
  pub key : Text
  pub topic : TopicInfo
  pub log_time_ns : ℕ
  pub publish_time_ns : ℕ
  pub contents : Bytes

-- What the MCAP writer promises: a new channel has the key and the topic that it was asked for and adds no message; a write
-- appends one message to its channel.
pub record Promises {W C : Type 0} (lib : McapWriter W C) : Type 0 where
  pub messages : W → List Message
  pub key_of : C → Text
  pub topic_of : C → TopicInfo
  pub add_topic_ok :
      (topic : TopicInfo) (key : Text) (w w' : W) (c : C)
      → lib.add_topic topic key w ≡ (ok c, w')
      → (key_of c ≡ key) × (topic_of c ≡ topic) × (messages w' ≡ messages w)
  pub write_ok :
      (c c' : C) (log_time_ns publish_time_ns : ℕ) (contents : Bytes) (w w' : W)
      → lib.write c log_time_ns publish_time_ns contents w ≡ (ok tt, c', w')
      → (key_of c' ≡ key_of c)
        × (topic_of c' ≡ topic_of c)
        × (messages w'
            ≡ messages w
              ++ (record {
                key = key_of c;
                topic = topic_of c;
                log_time_ns = log_time_ns;
                publish_time_ns = publish_time_ns;
                contents = contents;
              }
                  ∷ []))

module _ {W C : Type 0} (lib : McapWriter W C) (fbs : SynapseFbs) (promises : Promises lib) where
  open promises use {messages, key_of, topic_of, add_topic_ok, write_ok}

  -- Each channel is kept under its own key.
  abbrev pub IsNamed : BagWriter W C → Type 0
  IsNamed b = (key : Text) (c : C) → get key b.channels ≡ some c → key_of c ≡ key

  abbrev pub written : Option W → List Message
  written none = []
  written (some w) = messages w

  -- The messages of the bag.
  abbrev pub contents_of : BagWriter W C → List Message
  contents_of b = written b.writer

  -- The topic of the channel that a sample of the type `known` is written to.
  abbrev pub channel_topic : BagWriter W C → Text → TopicType → TopicInfo
  channel_topic b key known = elim (get key b.channels) [ none ↦ known.topic | some c ↦ topic_of c ]

  IsNamed-insert :
      (key : Text) (c : C) (w : W) (b : BagWriter W C)
      → IsNamed b
      → key_of c ≡ key
      → IsNamed (record { writer = some w; channels = insert key c b.channels })
  IsNamed-insert key c w b named h k d e =
      ground (arith, get-insert k key c b.channels, list_eq_iff key k, named k d)

  -- The channels of the other keys are as before.
  abbrev pub KeepsOthers : Text → BagWriter W C → BagWriter W C → Type 0
  KeepsOthers key b b' =
      (other : Text) → list_eq key other ≡ false → get other b'.channels ≡ get other b.channels

  insert-KeepsOthers :
      (key : Text) (c : C) (w : W) (b : BagWriter W C)
      → KeepsOthers key b (record { writer = some w; channels = insert key c b.channels })
  insert-KeepsOthers key c w b other h = rw (get-insert other key c b.channels, h) refl

  -- What `ensure_channel` leaves for a sample of the type `known`.
  abbrev pub HasChannel : Text → TopicType → BagWriter W C → BagWriter W C → Type 0
  HasChannel key known b b' =
      IsNamed b'
      × (contents_of b' ≡ contents_of b)
      × ((c : C) × (get key b'.channels ≡ some c) × (topic_of c ≡ channel_topic b key known))
      × KeepsOthers key b b'

  added_ok :
      (key : Text) (known : TopicType) (w w' : W) (b b' : BagWriter W C) (r : Result C)
      → b.writer ≡ some w
      → IsNamed b
      → get key b.channels ≡ none
      → lib.add_topic known.topic key w ≡ (r, w')
      → added lib fbs key b (r, w') ≡ (ok tt, b')
      → HasChannel key known b b'
  added_ok key known w w' b b' (ok c) h named missing call e =
      let (same_key, same_topic, same_messages) = add_topic_ok known.topic key w w' c call in
      let b2 : BagWriter W C = record { writer = some w'; channels = insert key c b.channels } in
      let same : b2 ≡ b' = ground arith in
      subst (HasChannel key known b) same (
        IsNamed-insert key c w' b named same_key,
        ground (arith, h, same_messages),
        (c, get-insert_self key c b.channels, rw (missing, channel_topic) same_topic),
        insert-KeepsOthers key c w' b,
      )
  added_ok key known w w' b b' (err x) h named missing call e = ground arith
  added_ok key known w w' b b' panic h named missing call e = ground arith

  pub ensure_channel_ok :
      (key : Text) (known : TopicType) (w : W) (b b' : BagWriter W C)
      → b.writer ≡ some w
      → IsNamed b
      → ensure_channel lib fbs key known w b ≡ (ok tt, b')
      → HasChannel key known b b'
  unfolding ensure_channel
  ensure_channel_ok key known w b b' h named e = elim (Option-cases (get key b.channels)) [
    | inl missing ↦
        let (r, w') = lib.add_topic known.topic key w in
        added_ok key known w w' b b' r h named missing refl (rw (missing, ensure_channel) at e)
    | inr (c, f) ↦
        let same : b ≡ b' = ground (arith, f) in
        subst (HasChannel key known b) same
          (named, refl, (c, f, rw (f, channel_topic)), λ other k. refl)
  ]

  pub channel_of_ok :
      (key : Text) (b b' : BagWriter W C) (c : C) (w : W)
      → channel_of lib fbs key b ≡ (ok (c, w), b')
      → (b' ≡ b) × (get key b.channels ≡ some c) × (b.writer ≡ some w)
  unfolding channel_of
  channel_of_ok key b b' c w e = ground arith

  abbrev pub message_of : Text → C → ℕ → ℕ → Bytes → Message
  message_of key c log time contents = record {
    key = key;
    topic = topic_of c;
    log_time_ns = log;
    publish_time_ns = time;
    contents = contents;
  }

  -- What a successful write on the channel `c` leaves.
  abbrev pub HasMessage : Text → C → W → Message → BagWriter W C → BagWriter W C → Type 0
  HasMessage key c w message b b' =
      IsNamed b'
      × (contents_of b' ≡ messages w ++ (message ∷ []))
      × ((c' : C) × (get key b'.channels ≡ some c') × (topic_of c' ≡ topic_of c))
      × KeepsOthers key b b'

  module _ (key : Text) (c : C) (log time : ℕ) (contents : Bytes) (w : W) (b : BagWriter W C) where
    abbrev outcome : Result (Unit {0}) → C → W → Result (Unit {0}) × BagWriter W C
    outcome r c' w' = (
      map_err (context (codes "failed to write Synapse MCAP sample on " ++ key)) r,
      record { writer = some w'; channels = insert key c' b.channels },
    )

    written_ok :
        (b' : BagWriter W C) (r : Result (Unit {0})) (c' : C) (w' : W)
        → IsNamed b
        → get key b.channels ≡ some c
        → lib.write c log time contents w ≡ (r, c', w')
        → outcome r c' w' ≡ (ok tt, b')
        → HasMessage key c w (message_of key c log time contents) b b'
    written_ok b' (ok tt) c' w' named h call e =
        let (same_key, same_topic, same_messages) = write_ok c c' log time contents w w' call in
        let key_is : key_of c ≡ key = named key c h in
        let b2 : BagWriter W C = record { writer = some w'; channels = insert key c' b.channels } in
        let same : b2 ≡ b' = ground arith in
        subst (HasMessage key c w (message_of key c log time contents) b) same (
          IsNamed-insert key c' w' b named (same_key ∙ key_is),
          rw key_is at same_messages,
          (c', get-insert_self key c' b.channels, same_topic),
          insert-KeepsOthers key c' w' b,
        )
    written_ok b' (err x) c' w' named h call e = ground arith
    written_ok b' panic c' w' named h call e = ground arith

    pub write_message_ok :
        (b' : BagWriter W C)
        → IsNamed b
        → get key b.channels ≡ some c
        → write_message lib fbs key c log time contents w b ≡ (ok tt, b')
        → HasMessage key c w (message_of key c log time contents) b b'
    unfolding write_message
    write_message_ok b' named h e =
        let (r, c', w') = lib.write c log time contents w in written_ok b' r c' w' named h refl e
