-- ===== src/Commands/Play/Replay.antt =====
-- What a replay publishes.
use csyn.Common.{
  ℕ, ◌+◌, ◌-◌, ◌%◌, ◌^◌, ◌<◌, List, [], ◌∷◌, ◌++◌, false, Option, none, some, ◌≡◌, refl, ap, ◌∙◌,
  arith, length,
}
use csyn.Common.Text.{Text}
use csyn.Common.Result.{ok}
use csyn.Synapse.{SynapseFbs}
use csyn.Types.Topic.{zenoh_encoding}
use csyn.Bag.Profile.{McapNames}
use csyn.Commands.Clock.{StdTime}
use csyn.Commands.Stream.{StreamMessage, is_filtered, Decoded, decode_message}
use csyn.Commands.Trace.{Publication, Event, slept, put, Trace, puts_of}
use csyn.Commands.Play.{Turn, pause, publish, play_message, play_loop}

pub puts_of-append : (es fs : List Event) → puts_of (es ++ fs) ≡ puts_of es ++ puts_of fs
unfolding puts_of
puts_of-append [] fs = refl
puts_of-append (Event.slept d ∷ es) fs = puts_of-append es fs
puts_of-append (Event.put p ∷ es) fs = ap (λ ps. p ∷ ps) (puts_of-append es fs)
puts_of-append (Event.printed l ∷ es) fs = puts_of-append es fs

module _ (fbs : SynapseFbs) (names : McapNames) (topic_filter : Option Text) where
  -- The message is read, passes the filter, decodes, and is put as `p`, and no shutdown is asked for.
  pub record Publishes (t : Turn) (p : Publication) : Type 0 where
    pub message : StreamMessage
    pub decoded : Decoded
    pub is_read : t.message ≡ ok message
    pub passes : is_filtered topic_filter message.channel.topic ≡ false
    pub runs : t.shutdown ≡ false
    pub decodes : decode_message fbs names message ≡ ok decoded
    pub accepted : t.published ≡ ok tt
    pub is_put :
        record {
          key = message.channel.topic;
          payload = decoded.payload;
          encoding = zenoh_encoding fbs decoded.known;
        }
        ≡ p

  abbrev pub PublishAll : List Turn → List Publication → Type 0
  PublishAll [] [] = Unit
  PublishAll (t ∷ turns) (p ∷ ps) = Publishes t p × PublishAll turns ps
  PublishAll _ _ = ⊥

-- No pause is too long for a `Duration`.
abbrev pub CanPause : {F : Type 0} → StdTime F → F → Type 0
CanPause time rate = (delta_ns : ℕ) → (d : ℕ) × (time.scaled rate delta_ns ≡ some d)

module _ {F : Type 0} (time : StdTime F) (fbs : SynapseFbs) (names : McapNames) (rate : F)
    (topic_filter : Option Text) where
  abbrev pub Plays : {A : Type 0} → A → List Publication → Trace A → Type 0
  Plays a ps r = (events : List Event) × (r ≡ (ok a, events)) × (puts_of events ≡ ps)

  pause-Plays :
      (previous : Option ℕ) (log_time : ℕ)
      → CanPause time rate
      → Plays tt [] (pause time fbs names rate previous log_time)
  unfolding pause puts_of
  pause-Plays none log_time can = ([], refl, refl)
  pause-Plays (some previous) log_time can =
      let (d, e) = can (log_time - previous) in (slept d ∷ [], rw (pause, e) refl, refl)

  pub play_message-Plays :
      (previous : Option ℕ) (t : Turn) (p : Publication)
      → CanPause time rate
      → (h : Publishes fbs names topic_filter t p)
      → Plays tt (p ∷ []) (play_message time fbs names rate previous t.published h.message)
  unfolding play_message publish
  play_message-Plays previous t p can h =
      let (es, e, q) = pause-Plays previous h.message.log_time can in
      (
        es ++ (put p ∷ []),
        rw (play_message, e, h.decodes, h.accepted) (λ i. (ok tt, es ++ (put (h.is_put i) ∷ []))),
        unfold puts_of in puts_of-append es (put p ∷ []) ∙ ap (λ ps. ps ++ (p ∷ [])) q,
      )

  -- Where every message is read, passes the filter and decodes, every `put` succeeds and every pause is a
  -- `Duration`, the loop plays all messages and puts one sample for each, in their order.
  pub play_loop-Plays :
      (previous : Option ℕ) (played : ℕ) (turns : List Turn) (ps : List Publication)
      → CanPause time rate
      → played < 2 ^ 64
      → PublishAll fbs names topic_filter turns ps
      → Plays
          ((played + length ps) % 2 ^ 64)
          ps
          (play_loop time fbs names rate topic_filter previous played turns)
  unfolding play_loop
  play_loop-Plays previous played [] [] can small h =
      let same : played ≡ (played + 0) % 2 ^ 64 = omega arith in
      ([], (λ i. (ok (same i), [])), unfold puts_of in refl)
  play_loop-Plays previous played [] (p ∷ ps) can small h = absurd h
  play_loop-Plays previous played (t ∷ turns) [] can small h = absurd h
  play_loop-Plays previous played (t ∷ turns) (p ∷ ps) can small (h, hs) =
      let (es, e, q) = play_message-Plays previous t p can h in
      let (fs, f, r) =
        play_loop-Plays (some h.message.log_time) ((played + 1) % 2 ^ 64) turns ps can (omega arith)
          hs in
      let count : ((played + 1) % 2 ^ 64 + length ps) % 2 ^ 64
          ≡ (played + length (p ∷ ps)) % 2 ^ 64 =
        omega arith in
      (
        es ++ fs,
        rw (play_loop, h.is_read, h.passes, h.runs, e, f) (λ i. (ok (count i), es ++ fs)),
        puts_of-append es fs ∙ λ i. q i ++ r i,
      )
