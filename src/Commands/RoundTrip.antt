-- ===== src/Commands/RoundTrip.antt =====
-- A bag that is recorded and then played: what was received is published again.
pub mod Made
pub mod Read
pub mod Bagged
use csyn.Common.{
  ℕ, suc, ◌+◌, ◌%◌, ◌^◌, List, [], ◌∷◌, ◌++◌, Option, none, false, ◌≡◌, refl, sym, ap, ◌∙◌, arith,
  All, map, length, plus_zero, length-map,
}
use mathlib.Core.Path.{subst}
use csyn.Common.Text.{Text}
use csyn.Common.Result.{Error, ok, bind_ok}
use csyn.Synapse.{SynapseFbs, ChecksSize}
use csyn.Types.Topic.{TopicType, zenoh_encoding, decode, mcap_to_zenoh_payload}
use csyn.Types.Topic.Payload.{to_mcap_payload-decodes, mcap_to_zenoh_payload-to_mcap_payload}
use csyn.Bag.Profile.{McapNames}
use csyn.Bag.Channel.{channel_type}
use csyn.Bag.Channel.Accepts.{IsCompatible, channel_type_iff}
use csyn.Bag.Writer.{McapWriter, BagWriter}
use csyn.Bag.Writer.Steps.{Message, Promises, contents_of}
use csyn.Bag.Writer.Success.{IsAccepting}
use csyn.ContractWarning.{default}
use csyn.Commands.Clock.{StdTime}
use csyn.Commands.Record.Loop.{Round, record_loop}
use csyn.Commands.Record.Taken.{Taken, taken, message_for, messages_for}
use csyn.Commands.Record.Written.{IsOpen, ok_inj, HasParts, message_for-HasParts}
use csyn.Commands.Record.Limit.{Fits}
use csyn.Commands.Record.Recorded.{IsSound, IsTypedAs, record_loop-Records}
use csyn.Commands.Stream.{StreamMessage, decode_message}
use csyn.Commands.Trace.{Publication, Event, puts_of}
use csyn.Commands.Play.{Turn, play_loop}
use csyn.Commands.Play.Replay.{Publishes, PublishAll, CanPause, play_loop-Plays}

-- The sample as it was received.
abbrev pub received_as : SynapseFbs → Taken → Publication
received_as fbs t = record {
  key = t.sample.key;
  payload = t.sample.payload;
  encoding = zenoh_encoding fbs t.known;
}

module _ (fbs : SynapseFbs) (names : McapNames) where
  -- The turn reads the message that the sample became, on a channel with the contract of the sample's type; no shutdown
  -- is asked for, and `put` succeeds.
  pub record IsReadBack (t : Taken) (m : Message) (turn : Turn) : Type 0 where
    pub message : StreamMessage
    pub is_read : turn.message ≡ ok message
    pub runs : turn.shutdown ≡ false
    pub accepted : turn.published ≡ ok tt
    pub same_key : message.channel.topic ≡ m.key
    pub same_contents : message.contents ≡ m.contents
    pub contract : IsCompatible fbs names message.channel t.known

  abbrev pub AreReadBack : List Taken → List Message → List Turn → Type 0
  AreReadBack [] [] [] = Unit
  AreReadBack (t ∷ ts) (m ∷ ms) (turn ∷ turns) = IsReadBack t m turn × AreReadBack ts ms turns
  AreReadBack _ _ _ = ⊥

  decodes_back :
      (t : Taken) (m : Message) (turn : Turn) (p : HasParts fbs t m) (h : IsReadBack t m turn)
      → ChecksSize fbs
      → (text : Text) → decode fbs t.known t.sample.payload ≡ ok text
      → decode_message fbs names h.message
        ≡ ok (record { known = t.known; payload = t.sample.payload; text = text })
  unfolding decode_message
  decodes_back t m turn p h checks text d =
      let typed : channel_type fbs names h.message.channel ≡ ok t.known =
        (channel_type_iff fbs names h.message.channel t.known).1 h.contract in
      let same : h.message.contents ≡ p.stored =
        h.same_contents ∙ sym (ap (λ x. x.contents) p.is_made) in
      let back : mcap_to_zenoh_payload fbs t.known h.message.contents ≡ ok t.sample.payload =
        subst (λ x. mcap_to_zenoh_payload fbs t.known x ≡ ok t.sample.payload) (sym same)
          (mcap_to_zenoh_payload-to_mcap_payload fbs t.known t.sample.payload p.stored checks
            p.has_stored) in
      rw (typed, back, d) refl

  IsReadBack-Publishes :
      (t : Taken) (m : Message) (turn : Turn)
      → ChecksSize fbs
      → message_for fbs t ≡ ok m
      → IsReadBack t m turn
      → Publishes fbs names none turn (received_as fbs t)
  IsReadBack-Publishes t m turn checks e h =
      let p = message_for-HasParts fbs t m e in
      let (text, d) = to_mcap_payload-decodes fbs t.known t.sample.payload p.stored p.has_stored in
      let key : h.message.channel.topic ≡ t.sample.key =
        h.same_key ∙ sym (ap (λ x. x.key) p.is_made) in
      record {
        message = h.message;
        decoded = record { known = t.known; payload = t.sample.payload; text = text };
        is_read = h.is_read;
        passes = refl;
        runs = h.runs;
        decodes = decodes_back t m turn p h checks text d;
        accepted = h.accepted;
        is_put = λ i. record {
          key = key i;
          payload = t.sample.payload;
          encoding = zenoh_encoding fbs t.known;
        };
      }

  AreReadBack-PublishAll :
      (ts : List Taken) (ms : List Message) (turns : List Turn)
      → ChecksSize fbs
      → messages_for fbs ts ≡ ok ms
      → AreReadBack ts ms turns
      → PublishAll fbs names none turns (map (received_as fbs) ts)
  unfolding messages_for
  AreReadBack-PublishAll [] [] [] checks e h = tt
  AreReadBack-PublishAll [] [] (turn ∷ turns) checks e h = absurd h
  AreReadBack-PublishAll [] (m ∷ ms) turns checks e h = absurd h
  AreReadBack-PublishAll (t ∷ ts) [] turns checks e h = absurd h
  AreReadBack-PublishAll (t ∷ ts) (m ∷ ms) [] checks e h = absurd h
  AreReadBack-PublishAll (t ∷ ts) (m ∷ ms) (turn ∷ turns) checks e (h, hs) =
      let (m1, e1, f1) = bind_ok _ (m ∷ ms) (message_for fbs t) e in
      let (ms1, e2, f2) = bind_ok _ (m ∷ ms) (messages_for fbs ts) f1 in
      let lists : (m1 ∷ ms1) ≡ (m ∷ ms) = ok_inj f2 in
      let heads : m1 ≡ m = cc in
      let tails : ms1 ≡ ms = cc in
      (
        IsReadBack-Publishes t m turn checks (e1 ∙ ap ok heads) h,
        AreReadBack-PublishAll ts ms turns checks (e2 ∙ ap ok tails) hs,
      )

  module _ {F W C : Type 0} (time : StdTime F) (rate : F) (lib : McapWriter W C)
      (display : Error → Text) (promises : Promises lib) (accepting : IsAccepting lib)
      (type_of : Text → TopicType) (forced_type : Option TopicType)
      (deadline max_messages : Option ℕ) where
    abbrev to_record : List Round → List Taken
    to_record rounds = taken fbs forced_type deadline max_messages 0 rounds

    -- A recording into an empty bag that succeeds, and a replay of its messages that publishes each recorded
    -- sample once, in the order of arrival, under its key, with its payload and encoding.
    abbrev RoundTrips : BagWriter W C → List Round → List Message → List Turn → Type 0
    RoundTrips b rounds ms turns =
        (b' : BagWriter W C) × (events : List Event) × (record_loop lib fbs display forced_type
            deadline max_messages default 0 rounds b
          ≡ (ok (length ms % 2 ^ 64), b'))
        × (contents_of lib fbs promises b' ≡ ms)
        × (play_loop time fbs names rate none none 0 turns
            ≡ (ok (length (to_record rounds) % 2 ^ 64), events))
        × (puts_of events ≡ map (received_as fbs) (to_record rounds))

    record_loop-play_loop :
        (rounds : List Round) (b : BagWriter W C) (ms : List Message) (turns : List Turn)
        → ChecksSize fbs
        → CanPause time rate
        → All (λ r. IsSound fbs forced_type r.poll) rounds
        → All (IsTypedAs type_of) (to_record rounds)
        → messages_for fbs (to_record rounds) ≡ ok ms
        → Fits max_messages 0
        → IsOpen lib fbs promises type_of b
        → contents_of lib fbs promises b ≡ []
        → AreReadBack (to_record rounds) ms turns
        → RoundTrips b rounds ms turns
    record_loop-play_loop rounds b ms turns checks can a typed e f o empty back =
        let (b', run, o', more) =
          record_loop-Records lib fbs display promises accepting type_of forced_type deadline
            max_messages default 0 rounds b ms a typed e f o in
        let (events, replay, puts) =
          play_loop-Plays time fbs names rate none none 0 turns
            (map (received_as fbs) (to_record rounds)) can (omega arith)
            (AreReadBack-PublishAll (to_record rounds) ms turns checks e back) in
        (
          b',
          events,
          run ∙ (λ i. (ok (plus_zero (length ms) i % 2 ^ 64), b')),
          more ∙ ap (λ xs. xs ++ ms) empty,
          replay ∙ (λ i. (
            ok (
                (plus_zero (length (map (received_as fbs) (to_record rounds)))
                    ∙ length-map (received_as fbs) (to_record rounds))
                  i
                % 2 ^ 64),
            events,
          )),
          puts,
        )
