-- ===== src/Commands/Record/Written.antt =====
-- What a recording leaves in the bag, over a writer that does what its documentation says and does not fail.
use csyn.Common.{
  ℕ, List, [], ◌∷◌, ◌++◌, some, ◌≡◌, sym, ap, ◌∙◌, Bool-cases, Option-cases, inl, inr,
}
use mathlib.Core.Path.{subst}
use csyn.Common.Text.{Text, list_eq}
use csyn.Common.TextOrder.{list_eq_iff}
use csyn.Common.Bytes.{Bytes}
use csyn.Common.Result.{ok, bind_ok}
use csyn.Synapse.{TopicInfo, SynapseFbs}
use csyn.Types.Topic.{TopicType, to_mcap_payload, mcap_publish_time_ns}
use csyn.Bag.Channel.{unix_now_ns}
use csyn.Bag.Writer.{McapWriter, BagWriter}
use csyn.Bag.Writer.Steps.{Message, Promises, IsNamed, contents_of, channel_topic, written}
use csyn.Bag.Writer.Messages.{IsWritten}
use csyn.Bag.Writer.Success.{IsAccepting, write_sample_succeeds}
use csyn.Commands.Record.Loop.{record_sample}
use csyn.Commands.Record.Taken.{Taken, message_for}

nonempty : (ms : List Message) (m : Message) → [] ≡ ms ++ (m ∷ []) → ⊥
nonempty [] m e = cc
nonempty (x ∷ ms) m e = cc

abbrev pub message_with : Taken → TopicInfo → ℕ → ℕ → Bytes → Message
message_with t topic log time stored = record {
  key = t.sample.key;
  topic = topic;
  log_time_ns = log;
  publish_time_ns = time;
  contents = stored;
}

-- The parts that a sample's message is made of.
pub record HasParts (fbs : SynapseFbs) (t : Taken) (m : Message) : Type 0 where
  pub log : ℕ
  pub time : ℕ
  pub stored : Bytes
  pub has_log : unix_now_ns t.clock ≡ ok log
  pub has_time : mcap_publish_time_ns fbs t.known t.sample.payload log ≡ ok time
  pub has_stored : to_mcap_payload fbs t.known t.sample.payload ≡ ok stored
  pub is_made : message_with t t.known.topic log time stored ≡ m

pub ok_inj : {A : Type 0} {a b : A} → ok a ≡ ok b → a ≡ b
ok_inj e = cc

pub message_for-HasParts :
    (fbs : SynapseFbs) (t : Taken) (m : Message) → message_for fbs t ≡ ok m → HasParts fbs t m
unfolding message_for
message_for-HasParts fbs t m e =
    let (log, e1, f1) = bind_ok _ m (unix_now_ns t.clock) e in
    let (time, e2, f2) = bind_ok _ m (mcap_publish_time_ns fbs t.known t.sample.payload log) f1 in
    let (stored, e3, f3) = bind_ok _ m (to_mcap_payload fbs t.known t.sample.payload) f2 in
    record {
      log = log;
      time = time;
      stored = stored;
      has_log = e1;
      has_time = e2;
      has_stored = e3;
      is_made = ok_inj f3;
    }

module _ {W C : Type 0} (lib : McapWriter W C) (fbs : SynapseFbs) (promises : Promises lib)
    (type_of : Text → TopicType) where
  -- A bag that takes samples: its writer is there, each channel is kept under its key, and has the topic of the type
  -- that `type_of` names.
  pub record IsOpen (b : BagWriter W C) : Type 0 where
    pub writer : W
    pub has_writer : b.writer ≡ some writer
    pub named : IsNamed lib fbs promises b
    pub typed :
        (key : Text) → channel_topic lib fbs promises b key (type_of key) ≡ (type_of key).topic

  has_last :
      (b : BagWriter W C) (ms : List Message) (m : Message)
      → contents_of lib fbs promises b ≡ ms ++ (m ∷ [])
      → (w : W) × (b.writer ≡ some w)
  has_last b ms m e = elim (Option-cases b.writer) [
    | inr (w, h) ↦ (w, h)
    | inl h ↦ absurd (nonempty ms m (subst (λ o. written lib fbs promises o ≡ ms ++ (m ∷ [])) h e))
  ]

  IsWritten-IsOpen :
      (key : Text) (known : TopicType) (log : ℕ) (payload : Bytes) (b b' : BagWriter W C)
      → IsOpen b
      → known ≡ type_of key
      → IsWritten lib fbs promises key known log payload b b'
      → IsOpen b'
  IsWritten-IsOpen key known log payload b b' o same w =
      let (writer, h) = has_last b' _ _ w.one_more in
      let topic : channel_topic lib fbs promises b key known ≡ (type_of key).topic =
        subst (λ k. channel_topic lib fbs promises b key k ≡ (type_of key).topic) (sym same)
          (o.typed key) in
      record {
        writer = writer;
        has_writer = h;
        named = w.named;
        typed = λ k. elim (Bool-cases (list_eq key k)) [
          | inl e ↦
              subst (λ j. channel_topic lib fbs promises b' j (type_of j) ≡ (type_of j).topic)
                ((list_eq_iff key k).0 e) (w.keeps_topic (type_of key) ∙ topic)
          | inr e ↦ w.keeps_others k (type_of k) e ∙ o.typed k
        ];
      }

  module _ (accepting : IsAccepting lib) where
    appended :
        (t : Taken) (m : Message) (b b' : BagWriter W C) (p : HasParts fbs t m)
        → t.known ≡ type_of t.sample.key
        → IsOpen b
        → IsWritten lib fbs promises t.sample.key t.known p.log t.sample.payload b b'
        → contents_of lib fbs promises b' ≡ contents_of lib fbs promises b ++ (m ∷ [])
    appended t m b b' p same o w =
        let topic : channel_topic lib fbs promises b t.sample.key t.known ≡ t.known.topic =
          subst (λ k. channel_topic lib fbs promises b t.sample.key k ≡ k.topic) (sym same)
            (o.typed t.sample.key) in
        let time : w.time ≡ p.time = ok_inj (sym w.has_time ∙ p.has_time) in
        let stored : w.stored ≡ p.stored = ok_inj (sym w.has_stored ∙ p.has_stored) in
        let made : message_with t (channel_topic lib fbs promises b t.sample.key t.known) p.log
              w.time w.stored
            ≡ m =
          (λ i. message_with t (topic i) p.log (time i) (stored i)) ∙ p.is_made in
        w.one_more ∙ ap (λ x. contents_of lib fbs promises b ++ (x ∷ [])) made

    pub record_sample_ok :
        (t : Taken) (m : Message) (b : BagWriter W C)
        → message_for fbs t ≡ ok m
        → t.known ≡ type_of t.sample.key
        → IsOpen b
        → (b' : BagWriter W C) × (record_sample lib fbs t.sample t.clock t.known b ≡ (ok tt, b'))
          × IsOpen b'
          × (contents_of lib fbs promises b' ≡ contents_of lib fbs promises b ++ (m ∷ []))
    unfolding record_sample
    record_sample_ok t m b e same o =
        let p = message_for-HasParts fbs t m e in
        let (b', run, w) =
          write_sample_succeeds lib fbs accepting promises t.sample.key t.known p.log
            t.sample.payload p.time p.stored o.writer b p.has_time p.has_stored o.has_writer
            o.named in
        (
          b',
          rw (record_sample, p.has_log) run,
          IsWritten-IsOpen t.sample.key t.known p.log t.sample.payload b b' o same w,
          appended t m b b' p same o w,
        )
