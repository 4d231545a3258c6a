-- ===== src/Bag/Writer/Messages.antt =====
-- What a bag holds after samples were written, over a writer that does what its documentation says.
use csyn.Common.{ℕ, [], ◌∷◌, ◌++◌, some, false, ◌≡◌, refl, sym, ap, ◌∙◌, arith}
use csyn.Common.Text.{Text, list_eq}
use csyn.Common.Bytes.{Bytes}
use csyn.Common.Result.{Result, ok, err, panic}
use csyn.Synapse.{SynapseFbs}
use csyn.Types.Topic.{TopicType, to_mcap_payload, mcap_publish_time_ns}
use csyn.Bag.Writer.{
  McapWriter, BagWriter, Method, and_then, require_writer, ensure_channel, channel_of,
  write_message, write_sample,
}
use csyn.Bag.Writer.Steps.{
  Promises, IsNamed, KeepsOthers, contents_of, channel_topic, written, message_of, HasMessage,
  ensure_channel_ok, channel_of_ok, write_message_ok,
}

and_then-ok :
    {S A B : Type 0} (f : A → Method S B) (m : Result A × S) (b : B) (s' : S)
    → and_then f m ≡ (ok b, s')
    → (a : A) × (s : S) × (m ≡ (ok a, s)) × (f a s ≡ (ok b, s'))
and_then-ok f (ok a, s) b s' e = (a, s, refl, e)
and_then-ok f (err x, s) b s' e = cc
and_then-ok f (panic, s) b s' e = cc

module _ {W C : Type 0} (lib : McapWriter W C) (fbs : SynapseFbs) (promises : Promises lib) where
  open promises use {messages, topic_of}

  -- What a successful call of `write_sample` did.
  pub record IsWritten (key : Text) (known : TopicType) (log : ℕ) (payload : Bytes)
      (b b' : BagWriter W C) : Type 0 where
    pub time : ℕ
    pub stored : Bytes
    pub has_time : mcap_publish_time_ns fbs known payload log ≡ ok time
    pub has_stored : to_mcap_payload fbs known payload ≡ ok stored
    pub named : IsNamed lib fbs promises b'
    pub one_more :
        contents_of lib fbs promises b'
        ≡ contents_of lib fbs promises b
          ++ (record {
            key = key;
            topic = channel_topic lib fbs promises b key known;
            log_time_ns = log;
            publish_time_ns = time;
            contents = stored;
          }
              ∷ [])
    pub keeps_topic :
        (later : TopicType)
        → channel_topic lib fbs promises b' key later ≡ channel_topic lib fbs promises b key known
    pub keeps_others :
        (other : Text) (later : TopicType)
        → list_eq key other ≡ false
        → channel_topic lib fbs promises b' other later
          ≡ channel_topic lib fbs promises b other later

  -- The steps of a successful call, each with the object that it left.
  record Steps (key : Text) (known : TopicType) (log : ℕ) (payload : Bytes) (b b' : BagWriter W C)
      : Type 0 where
    w : W
    b1 : BagWriter W C
    required_writer : require_writer lib fbs b ≡ (ok w, b1)
    b2 : BagWriter W C
    ensured : ensure_channel lib fbs key known w b1 ≡ (ok tt, b2)
    c : C
    w2 : W
    b3 : BagWriter W C
    taken : channel_of lib fbs key b2 ≡ (ok (c, w2), b3)
    time : ℕ
    has_time : mcap_publish_time_ns fbs known payload log ≡ ok time
    stored : Bytes
    has_stored : to_mcap_payload fbs known payload ≡ ok stored
    wrote : write_message lib fbs key c log time stored w2 b3 ≡ (ok tt, b')

  lift_ok :
      {A B : Type 0} (r : Result A) (f : A → Method (BagWriter W C) B) (s s' : BagWriter W C)
      (x : B)
      → and_then f (r, s) ≡ (ok x, s')
      → (a : A) × (r ≡ ok a) × (f a s ≡ (ok x, s'))
  lift_ok (ok a) f s s' x e = (a, refl, e)
  lift_ok (err y) f s s' x e = cc
  lift_ok panic f s s' x e = cc

  write_sample-Steps :
      (key : Text) (known : TopicType) (log : ℕ) (payload : Bytes) (b b' : BagWriter W C)
      → write_sample lib fbs key known log payload b ≡ (ok tt, b')
      → Steps key known log payload b b'
  unfolding write_sample
  write_sample-Steps key known log payload b b' e =
      let (w, b1, e1, f1) = and_then-ok _ (require_writer lib fbs b) tt b' e in
      let (u, b2, e2, f2) = and_then-ok _ (ensure_channel lib fbs key known w b1) tt b' f1 in
      let (cw, b3, e3, f3) = and_then-ok _ (channel_of lib fbs key b2) tt b' f2 in
      let (time, e4, f4) = lift_ok (mcap_publish_time_ns fbs known payload log) _ b3 b' tt f3 in
      let (stored, e5, f5) = lift_ok (to_mcap_payload fbs known payload) _ b3 b' tt f4 in
      record {
        w = w;
        b1 = b1;
        required_writer = e1;
        b2 = b2;
        ensured = e2;
        c = cw.0;
        w2 = cw.1;
        b3 = b3;
        taken = e3;
        time = time;
        has_time = e4;
        stored = stored;
        has_stored = e5;
        wrote = f5;
      }

  require_writer_ok :
      (b b1 : BagWriter W C) (w : W)
      → require_writer lib fbs b ≡ (ok w, b1)
      → (b1 ≡ b) × (b.writer ≡ some w)
  unfolding require_writer
  require_writer_ok b b1 w e = ground arith

  HasMessage-IsWritten :
      (key : Text) (known : TopicType) (log : ℕ) (payload : Bytes) (b b' : BagWriter W C) (c : C)
      (w : W) (time : ℕ) (stored : Bytes) (b2 : BagWriter W C)
      → mcap_publish_time_ns fbs known payload log ≡ ok time
      → to_mcap_payload fbs known payload ≡ ok stored
      → topic_of c ≡ channel_topic lib fbs promises b key known
      → messages w ≡ contents_of lib fbs promises b
      → HasMessage lib fbs promises key c w
          (message_of lib fbs promises key c log time stored)
          b2
          b'
      → KeepsOthers lib fbs promises key b b2
      → IsWritten key known log payload b b'
  HasMessage-IsWritten key known log payload b b' c w time stored b2 t p topic base
        (named, more, (c', has_c', topic'), others) others2 =
      record {
        time = time;
        stored = stored;
        has_time = t;
        has_stored = p;
        named = named;
        one_more = more ∙ λ i.
            base i
            ++ (record {
              key = key;
              topic = topic i;
              log_time_ns = log;
              publish_time_ns = time;
              contents = stored;
            }
                ∷ []);
        keeps_topic = λ later. rw (has_c', channel_topic) (topic' ∙ topic);
        keeps_others = λ other later h. rw (channel_topic, others other h, others2 other h) refl;
      }

  -- A successful call appends one message to the bag, on the channel of the key: the payload in its MCAP form, with its
  -- publication time and the log time. The channel's topic is that of the first sample
  -- with that key, and every later sample with the key goes to the same channel.
  pub write_sample-IsWritten :
      (key : Text) (known : TopicType) (log : ℕ) (payload : Bytes) (b b' : BagWriter W C)
      → IsNamed lib fbs promises b
      → write_sample lib fbs key known log payload b ≡ (ok tt, b')
      → IsWritten key known log payload b b'
  write_sample-IsWritten key known log payload b b' named e =
      let s = write_sample-Steps key known log payload b b' e in
      let (same, writer) = require_writer_ok b s.b1 s.w s.required_writer in
      let ensured : ensure_channel lib fbs key known s.w b ≡ (ok tt, s.b2) = rw same at s.ensured in
      let (named2, same_contents, (c, has_c, topic_c), others) =
        ensure_channel_ok lib fbs promises key known s.w b s.b2 writer named ensured in
      let (same3, get_c, writer2) = channel_of_ok lib fbs promises key s.b2 s.b3 s.c s.w2 s.taken in
      let wrote : write_message lib fbs key s.c log s.time s.stored s.w2 s.b2 ≡ (ok tt, b') =
        rw same3 at s.wrote in
      let chosen : c ≡ s.c = ground (arith, has_c, get_c) in
      let topic : topic_of s.c ≡ channel_topic lib fbs promises b key known =
        rw chosen at topic_c in
      let base : messages s.w2 ≡ contents_of lib fbs promises b =
        ap (written lib fbs promises) (sym writer2) ∙ same_contents in
      HasMessage-IsWritten key known log payload b b' s.c s.w2 s.time s.stored s.b2 s.has_time
        s.has_stored topic base
        (write_message_ok lib fbs promises key s.c log s.time s.stored s.w2 s.b2 b' named2 get_c
          wrote)
        others
