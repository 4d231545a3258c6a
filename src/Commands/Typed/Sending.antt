-- ===== src/Commands/Typed/Sending.antt =====
-- `topic_pub` and `bag_play` send typed samples.
use csyn.Common.{
  arith, ℕ, zero, suc, ◌+◌, ◌%◌, ◌^◌, List, [], ◌∷◌, ◌++◌, Option, none, some, true, false, ◌≡◌,
  refl, Bool, Bool-cases, inl, inr,
}
use mathlib.Core.Path.{subst}
use csyn.Common.Text.{Text, codes}
use csyn.Common.Result.{Result, ok, err, panic, bind_ok, map_err, context}
use csyn.Synapse.{SynapseFbs}
use csyn.Types.Topic.{require, publish_key, mcap_to_zenoh_payload, decode}
use csyn.Bag.Profile.{McapNames, profile_metadata}
use csyn.Bag.Channel.{channel_type}
use csyn.Commands.Clock.{StdTime}
use csyn.Commands.Stream.{StreamMessage, Decoded, decode_message, is_filtered}
use csyn.Commands.Trace.{Publication, Trace, ◌>>◌, lift}
use csyn.Commands.Publish.{TopicPubArgs, PubRun, payload_of, send, pub_loop, delay_of, topic_pub}
use csyn.Commands.Play.{Turn, PlayRun, pause, publish, play_message, play_loop, bag_play}
use csyn.Commands.Typed.{IsTyped, PutsAll, Sends, bind-Sends, lift-Sends, map_err_ok}

module _ (fbs : SynapseFbs) (P : Publication → Type 0) where
  send-Sends :
      (run : PubRun) (delay count : Option ℕ) (p : Publication) (round : ℕ)
      → P p
      → Sends P (send run delay count p round)
  unfolding send
  send-Sends run delay count p round h = ground arith

  pub_loop-Sends :
      (run : PubRun) (delay count : Option ℕ) (p : Publication) (fuel round sent : ℕ)
      → P p
      → Sends P (pub_loop run delay count p fuel round sent)
  unfolding pub_loop send
  pub_loop-Sends run delay count p zero round sent h = tt
  pub_loop-Sends run none count p (suc fuel) round sent h = ground arith
  pub_loop-Sends run (some d) count p (suc fuel) round sent h =
      ground (arith, pub_loop-Sends run (some d) count p fuel (round + 1) ((sent + 1) % 2 ^ 64) h)

  pub topic_pub-Sends :
      {F : Type 0} (time : StdTime F) (fuel : ℕ) (run : PubRun) (args : TopicPubArgs F)
      → ((p : Publication) → IsTyped fbs p → run.session ≡ ok tt → P p)
      → Sends P (topic_pub time fbs fuel run args)
  unfolding topic_pub
  topic_pub-Sends time fuel run args h =
      lift-Sends P (payload_of run.read args.file args.text) _ λ payload e1.
        lift-Sends P (publish_key fbs args.topic) _ λ key e2.
          lift-Sends P (require fbs args.ty) _ λ known e3.
            lift-Sends P
              (map_err (context (codes "payload does not match required type " ++ args.ty))
                (decode fbs known payload))
              _
              λ text e4. lift-Sends P run.session _ λ u e5.
                lift-Sends P (delay_of time fbs args.rate) _ λ delay e6.
                  pub_loop-Sends run delay args.count _ fuel 0 0 (
                    h _
                      (record {
                        known = known;
                        text = text;
                        encoded = refl;
                        decodes = map_err_ok _ (decode fbs known payload) text e4;
                      })
                      e5)

  -- What `decode_message` gives is decoded.
  decode_message-decodes :
      (names : McapNames) (message : StreamMessage) (d : Decoded)
      → decode_message fbs names message ≡ ok d
      → decode fbs d.known d.payload ≡ ok d.text
  unfolding decode_message
  decode_message-decodes names message d h =
      let (known, e1, h1) = bind_ok _ d (channel_type fbs names message.channel) h in
      let (payload, e2, h2) =
        bind_ok _ d
          (map_err
            (context (
              codes "MCAP payload on "
              ++ (message.channel.topic ++ (codes " does not match " ++ known.topic.name))))
            (mcap_to_zenoh_payload fbs known message.contents))
          h1 in
      let (text, e3, h3) = bind_ok _ d (decode fbs known payload) h2 in
      let same : record { known = known; payload = payload; text = text } ≡ d = cc in
      subst (λ x. decode fbs x.known x.payload ≡ ok x.text) same e3

  module _ {F : Type 0} (time : StdTime F) (names : McapNames) (rate : F)
      (every : (p : Publication) → IsTyped fbs p → P p) where
    play_message-Sends :
        (previous : Option ℕ) (published : Result (Unit {0})) (message : StreamMessage)
        → Sends P (play_message time fbs names rate previous published message)
    unfolding play_message pause publish
    play_message-Sends previous published message =
        bind-Sends P (pause time fbs names rate previous message.log_time) _
          (pauses previous message.log_time)
          λ u e1. lift-Sends P (decode_message fbs names message) _ λ decoded e2.
            publishes published _ (
              every _ (record {
                known = decoded.known;
                text = decoded.text;
                encoded = refl;
                decodes = decode_message-decodes names message decoded e2;
              }))
      where
        pauses :
            (previous : Option ℕ) (log_time : ℕ)
            → Sends P (pause time fbs names rate previous log_time)
        pauses none log_time = tt
        pauses (some p) log_time = ground arith

        publishes :
            (r : Result (Unit {0})) (p : Publication)
            → P p
            → Sends P (publish time fbs names rate r p)
        publishes (ok u) p h = (h, tt)
        publishes (err e) p h = tt
        publishes panic p h = tt

    module _ (topic_filter : Option Text) where
      abbrev PlaysTyped : List Turn → Type 0
      PlaysTyped turns =
          (previous : Option ℕ) (played : ℕ)
          → Sends P (play_loop time fbs names rate topic_filter previous played turns)

      turn-Sends :
          (m : Result StreamMessage) (shutdown : Bool) (published : Result (Unit {0}))
          (turns : List Turn)
          → PlaysTyped turns
          → PlaysTyped (record { message = m; shutdown = shutdown; published = published } ∷ turns)
      unfolding play_loop
      turn-Sends (err e) shutdown published turns ih previous played = tt
      turn-Sends panic shutdown published turns ih previous played = tt
      turn-Sends (ok message) shutdown published turns ih previous played =
          elim (Bool-cases (is_filtered topic_filter message.channel.topic)) [
            | inl skipped ↦ rw (play_loop, skipped) (ih previous played)
            | inr passes ↦ rw (play_loop, passes) (by_flag shutdown)
          ]
        where
          by_flag :
              (b : Bool)
              → PutsAll P
                  (elim b as (λ x. Trace ℕ) [
                    | true ↦ lift (ok played)
                    | false ↦
                        play_message time fbs names rate previous published message
                        >> play_loop time fbs names rate topic_filter
                            (some message.log_time)
                            ((played + 1) % 2 ^ 64)
                            turns
                  ]).1
          by_flag true = tt
          by_flag false =
              bind-Sends P (play_message time fbs names rate previous published message) _
                (play_message-Sends previous published message)
                λ u e. ih (some message.log_time) ((played + 1) % 2 ^ 64)

      play_loop-Sends : (turns : List Turn) → PlaysTyped turns
      unfolding play_loop
      play_loop-Sends [] previous played = tt
      play_loop-Sends (t ∷ turns) previous played =
          turn-Sends t.message t.shutdown t.published turns (play_loop-Sends turns) previous played

  pub bag_play-Sends :
      {F : Type 0} (time : StdTime F) (names : McapNames) (rate : F) (topic_filter : Option Text)
      (run : PlayRun)
      → ((p : Publication) → IsTyped fbs p → run.session ≡ ok tt → P p)
      → Sends P (bag_play time fbs names rate topic_filter run)
  unfolding bag_play
  bag_play-Sends time names rate topic_filter run h =
      elim (Bool-cases (time.is_at_most_zero rate)) [
        | inl refused ↦ rw (bag_play, refused) tt
        | inr positive ↦
            rw (bag_play, positive)
              (lift-Sends P run.session _ λ u e1. lift-Sends P run.contents _ λ v e2.
                lift-Sends P (profile_metadata names run.records) _ λ w e3.
                  lift-Sends P (map_err (context (codes "failed to open bag")) run.stream) _
                    λ turns e4.
                      play_loop-Sends time names rate (λ p t. h p t e1) topic_filter turns none 0)
      ]
