-- ===== src/Commands/Play/Paced.antt =====
-- When a replay publishes what.
use csyn.Common.{
  ℕ, ◌-◌, ◌+◌, ◌%◌, ◌^◌, ◌<◌, List, [], ◌∷◌, ◌++◌, false, Option, none, some, ◌≡◌, refl, ap, ◌∙◌,
  arith, length, plus_zero,
}
use csyn.Common.Text.{Text}
use csyn.Common.Result.{ok}
use csyn.Synapse.{SynapseFbs}
use csyn.Bag.Profile.{McapNames, ProfileMetadata, profile_metadata}
use csyn.Commands.Clock.{StdTime}
use csyn.Commands.Trace.{Publication, Event, slept, put}
use csyn.Commands.Play.{Turn, PlayRun, pause, publish, play_message, play_loop, bag_play}
use csyn.Commands.Play.Replay.{Publishes}

-- A sample, and the time at which its message was recorded.
pub record Timed : Type 0 where
  pub log_time : ℕ
  pub publication : Publication

-- The samples in their order, with a pause before each but the first: that for the time since the message before it, or for none
-- where the times fall.
abbrev pub schedule : (pause_for : ℕ → ℕ) → Option ℕ → List Timed → List Event
schedule pause_for previous [] = []
schedule pause_for none (s ∷ samples) =
    put s.publication ∷ schedule pause_for (some s.log_time) samples
schedule pause_for (some previous) (s ∷ samples) =
    slept (pause_for (s.log_time - previous))
    ∷ (put s.publication ∷ schedule pause_for (some s.log_time) samples)

module _ {F : Type 0} (time : StdTime F) (fbs : SynapseFbs) (names : McapNames) (rate : F)
    (topic_filter : Option Text) where
  -- The turn publishes the sample, and its message has the sample's time.
  pub record PublishesAt (t : Turn) (s : Timed) : Type 0 where
    pub publishes : Publishes fbs names topic_filter t s.publication
    pub same_time : publishes.message.log_time ≡ s.log_time

  abbrev pub PublishAllAt : List Turn → List Timed → Type 0
  PublishAllAt [] [] = Unit
  PublishAllAt (t ∷ turns) (s ∷ samples) = PublishesAt t s × PublishAllAt turns samples
  PublishAllAt _ _ = ⊥

  -- The pauses before the samples are `Duration`s.
  abbrev pub CanPauseFor : (pause_for : ℕ → ℕ) → Option ℕ → List Timed → Type 0
  CanPauseFor pause_for previous [] = Unit
  CanPauseFor pause_for none (s ∷ samples) = CanPauseFor pause_for (some s.log_time) samples
  CanPauseFor pause_for (some previous) (s ∷ samples) =
      (time.scaled rate (s.log_time - previous) ≡ some (pause_for (s.log_time - previous)))
      × CanPauseFor pause_for (some s.log_time) samples

  pub play_message-schedule :
      (pause_for : ℕ → ℕ) (previous : Option ℕ) (t : Turn) (s : Timed) (h : PublishesAt t s)
      → CanPauseFor pause_for previous (s ∷ [])
      → play_message time fbs names rate previous t.published h.publishes.message
        ≡ (ok tt, schedule pause_for previous (s ∷ []))
  unfolding play_message pause publish
  play_message-schedule pause_for none t s h c =
      rw (play_message, h.publishes.decodes, h.publishes.accepted)
        (λ i. (ok tt, put (h.publishes.is_put i) ∷ []))
  play_message-schedule pause_for (some previous) t s h (c, u) =
      let c' : time.scaled rate (h.publishes.message.log_time - previous)
          ≡ some (pause_for (s.log_time - previous)) =
        ap (λ x. time.scaled rate (x - previous)) h.same_time ∙ c in
      rw (play_message, pause, c', h.publishes.decodes, h.publishes.accepted)
        (λ i.
          (ok tt, slept (pause_for (s.log_time - previous)) ∷ (put (h.publishes.is_put i) ∷ [])))

  pub schedule-cons :
      (pause_for : ℕ → ℕ) (previous : Option ℕ) (s : Timed) (samples : List Timed)
      → schedule pause_for previous (s ∷ []) ++ schedule pause_for (some s.log_time) samples
        ≡ schedule pause_for previous (s ∷ samples)
  schedule-cons pause_for none s samples = refl
  schedule-cons pause_for (some previous) s samples = refl

  module _ (pause_for : ℕ → ℕ)
      (paused : (delta_ns : ℕ) → time.scaled rate delta_ns ≡ some (pause_for delta_ns)) where
    can_pause : (previous : Option ℕ) (s : Timed) → CanPauseFor pause_for previous (s ∷ [])
    can_pause none s = tt
    can_pause (some previous) s = (paused (s.log_time - previous), tt)

    play_loop-schedule :
        (previous : Option ℕ) (played : ℕ) (turns : List Turn) (samples : List Timed)
        → played < 2 ^ 64
        → PublishAllAt turns samples
        → play_loop time fbs names rate topic_filter previous played turns
          ≡ (ok ((played + length samples) % 2 ^ 64), schedule pause_for previous samples)
    unfolding play_loop
    play_loop-schedule previous played [] [] small h =
        let same : played ≡ (played + 0) % 2 ^ 64 = omega arith in λ i. (ok (same i), [])
    play_loop-schedule previous played [] (s ∷ samples) small h = absurd h
    play_loop-schedule previous played (t ∷ turns) [] small h = absurd h
    play_loop-schedule previous played (t ∷ turns) (s ∷ samples) small (h, hs) =
        let p = h.publishes in
        let rest =
          play_loop-schedule (some p.message.log_time) ((played + 1) % 2 ^ 64) turns samples
            (omega arith) hs in
        let count : ((played + 1) % 2 ^ 64 + length samples) % 2 ^ 64
            ≡ (played + length (s ∷ samples)) % 2 ^ 64 =
          omega arith in
        rw
          (
            play_loop,
            p.is_read,
            p.passes,
            p.runs,
            play_message-schedule pause_for previous t s h (can_pause previous s),
            rest,
          )
          (λ i. (
            ok (count i),
            schedule pause_for previous (s ∷ [])
                ++ schedule pause_for (some (h.same_time i)) samples,
          ))
        ∙ ap (λ es. (ok ((played + length (s ∷ samples)) % 2 ^ 64), es))
            (schedule-cons pause_for previous s samples)

    -- Where a session, a bag of the profile and its messages can be had, the rate is not at most zero, every message can be published
    -- as its sample, and the time between two messages divided by the rate is always a `Duration`: `bag play` publishes all
    -- samples in their order, pauses before each but the first for the time since the message before it divided by the
    -- rate, does nothing else, and gives their number modulo 2^64.
    pub bag_play-schedule :
        (run : PlayRun) (m : ProfileMetadata) (turns : List Turn) (samples : List Timed)
        → time.is_at_most_zero rate ≡ false
        → run.session ≡ ok tt
        → run.contents ≡ ok tt
        → profile_metadata names run.records ≡ ok m
        → run.stream ≡ ok turns
        → PublishAllAt turns samples
        → bag_play time fbs names rate topic_filter run
          ≡ (ok (length samples % 2 ^ 64), schedule pause_for none samples)
    unfolding bag_play
    bag_play-schedule run m turns samples positive session contents profile stream h =
        rw (bag_play, positive, session, contents, profile, stream)
          (rw (play_loop-schedule none 0 turns samples (omega arith) h)
            (λ i. (ok (plus_zero (length samples) i % 2 ^ 64), schedule pause_for none samples)))
