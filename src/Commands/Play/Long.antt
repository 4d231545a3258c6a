-- ===== src/Commands/Play/Long.antt =====
-- A replay with a pause that is too long.
use csyn.Common.{
  ℕ, ◌-◌, ◌+◌, ◌%◌, ◌^◌, List, [], ◌∷◌, ◌++◌, false, Option, none, some, ◌≡◌, refl, ap, ◌∙◌,
}
use csyn.Common.Text.{Text}
use csyn.Common.Result.{ok, panic}
use csyn.Synapse.{SynapseFbs}
use csyn.Bag.Profile.{McapNames, ProfileMetadata, profile_metadata}
use csyn.Commands.Clock.{StdTime}
use csyn.Commands.Stream.{StreamMessage, is_filtered}
use csyn.Commands.Trace.{Event}
use csyn.Commands.Play.{Turn, PlayRun, pause, play_message, play_loop, bag_play}
use csyn.Commands.Play.Paced.{
  Timed, schedule, PublishesAt, PublishAllAt, CanPauseFor, play_message-schedule,
}

-- The time of the last of the samples, behind one of the time `previous`.
abbrev pub last_time : ℕ → List Timed → ℕ
last_time previous [] = previous
last_time previous (s ∷ samples) = last_time s.log_time samples

module _ {F : Type 0} (time : StdTime F) (fbs : SynapseFbs) (names : McapNames) (rate : F)
    (topic_filter : Option Text) (pause_for : ℕ → ℕ) where
  head_pause :
      (previous : Option ℕ) (s : Timed) (samples : List Timed)
      → CanPauseFor time fbs names rate topic_filter pause_for previous (s ∷ samples)
      → CanPauseFor time fbs names rate topic_filter pause_for previous (s ∷ [])
        × CanPauseFor time fbs names rate topic_filter pause_for (some s.log_time) samples
  head_pause none s samples c = (tt, c)
  head_pause (some previous) s samples (c, cs) = ((c, tt), cs)

  -- The turn of a message whose pause is too long, and what is behind it.
  module _ (t : Turn) (turns : List Turn) (message : StreamMessage) (read : t.message ≡ ok message)
      (passes : is_filtered topic_filter message.channel.topic ≡ false)
      (runs : t.shutdown ≡ false) where
    too_long :
        (previous played : ℕ)
        → time.scaled rate (message.log_time - previous) ≡ none
        → play_loop time fbs names rate topic_filter (some previous) played (t ∷ turns)
          ≡ (panic, [])
    unfolding play_loop play_message pause
    too_long previous played long =
        rw (play_loop, read, passes, runs, play_message, pause, long) refl

    one_more :
        (previous : Option ℕ) (played : ℕ) (first : Turn) (more : List Turn) (s : Timed)
        (events : List Event)
        → PublishesAt time fbs names rate topic_filter first s
        → CanPauseFor time fbs names rate topic_filter pause_for previous (s ∷ [])
        → play_loop time fbs names rate topic_filter (some s.log_time) ((played + 1) % 2 ^ 64) more
          ≡ (panic, events)
        → play_loop time fbs names rate topic_filter previous played (first ∷ more)
          ≡ (panic, schedule pause_for previous (s ∷ []) ++ events)
    unfolding play_loop
    one_more previous played first more s events h c rest =
        let p = h.publishes in
        let rest' : play_loop time fbs names rate topic_filter (some p.message.log_time)
              ((played + 1) % 2 ^ 64) more
            ≡ (panic, events) =
          ap (λ x. play_loop time fbs names rate topic_filter (some x) ((played + 1) % 2 ^ 64) more)
            h.same_time
          ∙ rest in
        rw
          (
            play_loop,
            p.is_read,
            p.passes,
            p.runs,
            play_message-schedule time fbs names rate topic_filter pause_for previous first s h c,
            rest',
          )
          refl

    played_until :
        (previous played : ℕ) (before : List Turn) (samples : List Timed)
        → PublishAllAt time fbs names rate topic_filter before samples
        → CanPauseFor time fbs names rate topic_filter pause_for (some previous) samples
        → time.scaled rate (message.log_time - last_time previous samples) ≡ none
        → play_loop time fbs names rate topic_filter (some previous) played (before ++ (t ∷ turns))
          ≡ (panic, schedule pause_for (some previous) samples)
    played_until previous played [] [] h c long = too_long previous played long
    played_until previous played [] (s ∷ samples) h c long = absurd h
    played_until previous played (first ∷ before) [] h c long = absurd h
    played_until previous played (first ∷ before) (s ∷ samples) (h, hs) (c, cs) long =
        one_more (some previous) played first (before ++ (t ∷ turns)) s _ h (c, tt)
          (played_until s.log_time ((played + 1) % 2 ^ 64) before samples hs cs long)

    -- Where a session, a bag of the profile and its messages can be had and the rate is not at most zero, let any number of messages,
    -- one at least, be such that each can be published as its sample and the times between them divided by the rate are
    -- `Duration`s, and let the time from the last of them to the message `t` divided by the rate be none. Then `bag play`
    -- publishes exactly these samples with their pauses and panics, whatever comes behind.
    pub bag_play_panics :
        (run : PlayRun) (m : ProfileMetadata) (first : Turn) (before : List Turn) (s : Timed)
        (samples : List Timed)
        → time.is_at_most_zero rate ≡ false
        → run.session ≡ ok tt
        → run.contents ≡ ok tt
        → profile_metadata names run.records ≡ ok m
        → run.stream ≡ ok (first ∷ (before ++ (t ∷ turns)))
        → PublishAllAt time fbs names rate topic_filter (first ∷ before) (s ∷ samples)
        → CanPauseFor time fbs names rate topic_filter pause_for none (s ∷ samples)
        → time.scaled rate (message.log_time - last_time s.log_time samples) ≡ none
        → bag_play time fbs names rate topic_filter run
          ≡ (panic, schedule pause_for none (s ∷ samples))
    unfolding bag_play
    bag_play_panics run m first before s samples positive session contents profile stream (h, hs) c
          long =
        rw (bag_play, positive, session, contents, profile, stream)
          (rw
            (one_more none 0 first (before ++ (t ∷ turns)) s _ h tt
              (played_until s.log_time ((0 + 1) % 2 ^ 64) before samples hs c long))
            refl)
