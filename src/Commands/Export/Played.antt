-- ===== src/Commands/Export/Played.antt =====
-- `bag_export`, and `bag_play` of the same file.
use csyn.Common.{
  ℕ, ◌%◌, ◌^◌, List, false, Option, none, ◌≡◌, refl, ◌∙◌, sym, arith, map, length, plus_zero,
}
use mathlib.Core.List.{append-nil}
use mathlib.Core.Path.{subst}
use csyn.Common.Text.{Text, codes}
use csyn.Common.Result.{Result, ok, err, panic, map_err, context, err_not_ok, panic_not_ok}
use csyn.Synapse.{SynapseFbs}
use csyn.Bag.Profile.{McapNames, ProfileMetadata, profile_metadata}
use csyn.Commands.Clock.{StdTime}
use csyn.Commands.Trace.{Event, Trace, ◌>>=◌, lift, puts_of}
use csyn.Commands.Typed.{map_err_ok}
use csyn.Commands.Play.{Turn, PlayRun, play_loop, bag_play}
use csyn.Commands.Play.Replay.{CanPause}
use csyn.Commands.Export.{
  ExportFrame, Encoders, ExportTurn, ExportRun, BagExportFormat, jsonl, open_output, export_loop,
  bag_export_jsonl, bag_export,
}
use csyn.Commands.Export.Replayed.{replayed, IsOutput, sent, stored, export_loop-play_loop}

-- What comes behind a value, where the whole succeeds.
lift_ok :
    {A : Type 0} (r : Result A) (f : A → Trace (Unit {0}))
    → (lift r >>= f).0 ≡ ok tt
    → (a : A) × (r ≡ ok a) × ((f a).0 ≡ ok tt) × ((lift r >>= f).1 ≡ (f a).1)
lift_ok (ok a) f h = (a, refl, h, refl)
lift_ok (err e) f h = absurd (err_not_ok h)
lift_ok panic f h = absurd (panic_not_ok h)

loop_ok :
    (m : Trace (Unit {0})) (r : Result (Unit {0}))
    → (m >>= λ u. lift r).0 ≡ ok tt
    → (m.0 ≡ ok tt) × ((m >>= λ u. lift r).1 ≡ m.1)
loop_ok (ok u, es) r h = (refl, append-nil es)
loop_ok (err e, es) r h = absurd (err_not_ok h)
loop_ok (panic, es) r h = absurd (panic_not_ok h)

abbrev replayed_all : Result (List ExportTurn) → Result (List Turn)
replayed_all (ok turns) = ok (map replayed turns)
replayed_all (err e) = err e
replayed_all panic = panic

-- What `bag_play` finds where it reads the same file, and the router takes every sample.
abbrev pub replay_of : ExportRun → PlayRun
replay_of run = record {
  session = ok tt;
  contents = run.contents;
  records = run.records;
  stream = replayed_all run.stream;
}

module _ {F : Type 0} (fbs : SynapseFbs) (names : McapNames) (enc : Encoders) (time : StdTime F)
    (rate : F) (topic_filter : Option Text) where
  -- The parts of an export that succeeds.
  record HasExported (run : ExportRun) (exported : Trace (Unit {0})) : Type 0 where
    turns : List ExportTurn
    profile : ProfileMetadata
    opened : run.contents ≡ ok tt
    profiled : profile_metadata names run.records ≡ ok profile
    streamed : run.stream ≡ ok turns
    looped : (export_loop fbs names enc topic_filter turns).0 ≡ ok tt
    same_events : exported.1 ≡ (export_loop fbs names enc topic_filter turns).1

  bag_export-HasExported :
      (run : ExportRun) (output : Option Text) (format : BagExportFormat)
      → (bag_export fbs names enc run output format topic_filter).0 ≡ ok tt
      → HasExported run (bag_export fbs names enc run output format topic_filter)
  unfolding bag_export bag_export_jsonl
  bag_export-HasExported run output jsonl h =
      let (u, e1, h1, o1) = lift_ok run.contents _ h in
      let (m, e2, h2, o2) = lift_ok (profile_metadata names run.records) _ h1 in
      let (v, e3, h3, o3) = lift_ok (open_output run.create output) _ h2 in
      let (turns, e4, h4, o4) =
        lift_ok (map_err (context (codes "failed to open bag")) run.stream) _ h3 in
      let (h5, o5) = loop_ok (export_loop fbs names enc topic_filter turns) run.flush h4 in
      record {
        turns = turns;
        profile = m;
        opened = e1;
        profiled = e2;
        streamed = map_err_ok _ run.stream turns e4;
        looped = h5;
        same_events = o1 ∙ (o2 ∙ (o3 ∙ (o4 ∙ o5)));
      }

  bag_play-replay_of :
      (run : ExportRun) (exported : Trace (Unit {0})) (x : HasExported run exported) (n : ℕ)
      (events : List Event)
      → time.is_at_most_zero rate ≡ false
      → play_loop time fbs names rate topic_filter none 0 (map replayed x.turns) ≡ (ok n, events)
      → bag_play time fbs names rate topic_filter (replay_of run) ≡ (ok n, events)
  unfolding bag_play
  bag_play-replay_of run exported x n events positive played =
      rw (bag_play, positive, x.opened, x.profiled, x.streamed, played) refl

  -- What is exported is the frames `fs`, and the replay publishes a sample for each of them.
  abbrev pub Agree : Trace (Unit {0}) → Trace ℕ → Type 0
  Agree exported played =
      (fs : List ExportFrame) × IsOutput fbs names enc fs exported.1
      × (events : List Event) × (played ≡ (ok (length fs % 2 ^ 64), events))
      × (map (sent fbs names enc) (puts_of events) ≡ map (stored fbs names enc) fs)

  -- Where no pause is too long for a `Duration`, no shutdown is asked for and every `put` succeeds: if `bag export` succeeds, `bag
  -- play` of the same file with the same filter and a positive rate succeeds, and sends for each exported frame, in order, a
  -- sample with the key, the payload and the encoding that the frame holds.
  pub bag_export-bag_play :
      (run : ExportRun) (output : Option Text) (format : BagExportFormat)
      → CanPause time rate
      → time.is_at_most_zero rate ≡ false
      → (bag_export fbs names enc run output format topic_filter).0 ≡ ok tt
      → Agree
          (bag_export fbs names enc run output format topic_filter)
          (bag_play time fbs names rate topic_filter (replay_of run))
  bag_export-bag_play run output format can positive h =
      let exported = bag_export fbs names enc run output format topic_filter in
      let x = bag_export-HasExported run output format h in
      let (fs, o, events, played, same) =
        export_loop-play_loop fbs names enc time rate topic_filter x.turns none 0 can (omega arith)
          x.looped in
      (
        fs,
        subst (IsOutput fbs names enc fs) (sym x.same_events) o,
        events,
        bag_play-replay_of run exported x _ events positive played ∙ λ i.
            (ok (plus_zero (length fs) i % 2 ^ 64), events),
        same,
      )
