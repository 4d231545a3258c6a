-- ===== src/Commands/Export/Replayed.antt =====
-- An export that succeeds holds, line by line, what a replay of the same messages publishes.
use csyn.Common.{
  ℕ, ◌+◌, ◌%◌, ◌^◌, ◌<◌, List, [], ◌∷◌, ◌++◌, false, Option, some, ◌≡◌, refl, ap, ◌∙◌, arith,
  length, map, suc, Bool-cases, inl, inr,
}
use csyn.Common.Text.{Text}
use csyn.Common.Result.{
  Result, ok, err, panic, Result-cases, is_ok, is_err, is_panic, err_not_ok, panic_not_ok,
}
use csyn.Synapse.{SynapseFbs}
use csyn.Types.Topic.{zenoh_encoding}
use csyn.Bag.Profile.{McapNames}
use csyn.Commands.Clock.{StdTime}
use csyn.Commands.Stream.{StreamMessage, is_filtered, Decoded, decode_message}
use csyn.Commands.Trace.{Publication, Event, printed, Trace, ◌>>◌, puts_of}
use csyn.Commands.Play.{Turn, play_loop}
use csyn.Commands.Play.Replay.{CanPause, puts_of-append, play_message-Plays}
use csyn.Commands.Export.{ExportFrame, Encoders, ExportTurn, frame_of, export_message, export_loop}

-- The turn of a replay that reads the same message, runs on, and whose `put` succeeds.
abbrev pub replayed : ExportTurn → Turn
replayed t = record { message = t.message; shutdown = false; published = ok tt }

-- Both parts of a sequence that succeeds.
both_ok : (m k : Trace (Unit {0})) → (m >> k).0 ≡ ok tt → (m.0 ≡ ok tt) × (k.0 ≡ ok tt)
both_ok (ok u, es) (r, more) h = (refl, h)
both_ok (err e, es) k h = cc
both_ok (panic, es) k h = cc

module _ (fbs : SynapseFbs) (names : McapNames) (enc : Encoders) where
  -- What `export_message` writes when it succeeds.
  record IsExported (message : StreamMessage) (r : Trace (Unit {0})) : Type 0 where
    decoded : Decoded
    line : Text
    decodes : decode_message fbs names message ≡ ok decoded
    encodes : enc.to_json (frame_of fbs names enc message decoded) ≡ ok line
    writes : r ≡ (ok tt, printed line ∷ [])

  export_message-IsExported :
      (written : Result (Unit {0})) (message : StreamMessage)
      → (export_message fbs names enc written message).0 ≡ ok tt
      → IsExported message (export_message fbs names enc written message)
  unfolding export_message
  export_message-IsExported written message h =
      elim (Result-cases (decode_message fbs names message)) [
        | is_err e q ↦ absurd (err_not_ok (rw (export_message, q) at h))
        | is_panic q ↦ absurd (panic_not_ok (rw (export_message, q) at h))
        | is_ok decoded q ↦
            elim (Result-cases (enc.to_json (frame_of fbs names enc message decoded))) [
              | is_err e j ↦ absurd (err_not_ok (rw (export_message, q, j) at h))
              | is_panic j ↦ absurd (panic_not_ok (rw (export_message, q, j) at h))
              | is_ok line j ↦ elim (Result-cases written) [
                | is_err e w ↦ absurd (err_not_ok (rw (export_message, q, j, w) at h))
                | is_panic w ↦ absurd (panic_not_ok (rw (export_message, q, j, w) at h))
                | is_ok u w ↦ record {
                  decoded = decoded;
                  line = line;
                  decodes = q;
                  encodes = j;
                  writes = rw (export_message, q, j, w) refl;
                }
              ]
            ]
      ]

  -- The events are the lines of the frames, one for each.
  abbrev pub IsOutput : List ExportFrame → List Event → Type 0
  IsOutput [] [] = Unit
  IsOutput (f ∷ fs) (printed line ∷ events) = (enc.to_json f ≡ ok line) × IsOutput fs events
  IsOutput _ _ = ⊥

  -- Key, payload in Base64 and encoding of a sample, and what a frame holds of them.
  abbrev pub sent : Publication → Text × Text × Text
  sent p = (p.key, enc.base64 p.payload, p.encoding)

  abbrev pub stored : ExportFrame → Text × Text × Text
  stored f = (f.topic, f.payload_base64, f.value_contract)

  module _ {F : Type 0} (time : StdTime F) (rate : F) (topic_filter : Option Text) where
    abbrev export : List ExportTurn → Trace (Unit {0})
    export turns = export_loop fbs names enc topic_filter turns

    -- What is exported is the frames `fs`, and the replay publishes a sample for each of them.
    abbrev pub Agrees : Option ℕ → ℕ → List ExportTurn → Type 0
    Agrees previous played turns =
        (fs : List ExportFrame) × IsOutput fs (export turns).1
        × (events : List Event) × (play_loop time fbs names rate topic_filter previous played
              (map replayed turns)
            ≡ (ok ((played + length fs) % 2 ^ 64), events))
        × (map sent (puts_of events) ≡ map stored fs)

    abbrev Holds : List ExportTurn → Type 0
    Holds turns =
        (previous : Option ℕ) (played : ℕ)
        → CanPause time rate
        → played < 2 ^ 64
        → (export turns).0 ≡ ok tt
        → Agrees previous played turns

    -- A message that is not passed over.
    exported :
        (message : StreamMessage) (written : Result (Unit {0})) (turns : List ExportTurn)
        → Holds turns
        → (previous : Option ℕ) (played : ℕ) → CanPause time rate
        → played < 2 ^ 64
        → is_filtered topic_filter message.channel.topic ≡ false
        → IsExported message (export_message fbs names enc written message)
        → (export turns).0 ≡ ok tt
        → Agrees previous played (record { message = ok message; written = written } ∷ turns)
    unfolding export_loop play_loop puts_of
    exported message written turns ih previous played can small passes x rest =
        let p : Publication = record {
          key = message.channel.topic;
          payload = x.decoded.payload;
          encoding = zenoh_encoding fbs x.decoded.known;
        } in
        let (es, e, q) =
          play_message-Plays time fbs names rate topic_filter previous
            (replayed (record { message = ok message; written = written })) p can
            (record {
              message = message;
              decoded = x.decoded;
              is_read = refl;
              passes = passes;
              runs = refl;
              decodes = x.decodes;
              accepted = refl;
              is_put = refl;
            }) in
        let (fs, o, events, f, g) =
          ih (some message.log_time) ((played + 1) % 2 ^ 64) can (omega arith) rest in
        let count : ((played + 1) % 2 ^ 64 + length fs) % 2 ^ 64
            ≡ (played + suc (length fs)) % 2 ^ 64 =
          omega arith in
        (
          frame_of fbs names enc message x.decoded ∷ fs,
          rw (export_loop, passes, x.writes) (x.encodes, o),
          es ++ events,
          rw (play_loop, passes, e, f) (λ i. (ok (count i), es ++ events)),
          ap (map sent) (puts_of-append es events ∙ λ i. q i ++ puts_of events)
              ∙ ap (λ ls. sent p ∷ ls) g,
        )

    read :
        (message : Result StreamMessage) (written : Result (Unit {0})) (turns : List ExportTurn)
        → Holds turns
        → Holds (record { message = message; written = written } ∷ turns)
    unfolding export_loop play_loop
    read (err e) written turns ih previous played can small h = absurd (err_not_ok h)
    read panic written turns ih previous played can small h = absurd (panic_not_ok h)
    read (ok message) written turns ih previous played can small h =
        elim (Bool-cases (is_filtered topic_filter message.channel.topic)) [
          | inl skipped ↦
              rw (export_loop, play_loop, skipped)
                (ih previous played can small (rw (export_loop, skipped) at h))
          | inr passes ↦
              let (one, rest) =
                both_ok (export_message fbs names enc written message) (export turns)
                  (rw (export_loop, passes) at h) in
              exported message written turns ih previous played can small passes
                (export_message-IsExported written message one) rest
        ]

    -- Where no pause is too long for a `Duration`, no shutdown is asked for and every `put` succeeds, an export
    -- that succeeds and a replay of the same messages agree: the replay succeeds, and sends for each exported frame, in
    -- order, a sample with the key, the payload and the encoding that the frame holds.
    pub export_loop-play_loop : (turns : List ExportTurn) → Holds turns
    unfolding export_loop play_loop puts_of
    export_loop-play_loop [] previous played can small h =
        let same : played ≡ (played + 0) % 2 ^ 64 = omega arith in
        ([], tt, [], (λ i. (ok (same i), [])), refl)
    export_loop-play_loop (t ∷ turns) previous played can small h =
        read t.message t.written turns (export_loop-play_loop turns) previous played can small h
