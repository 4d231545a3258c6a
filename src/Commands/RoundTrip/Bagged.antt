-- ===== src/Commands/RoundTrip/Bagged.antt =====
-- `bag_record`, and `bag_play` of the file that it leaves.
use csyn.Common.{
  ℕ, ◌%◌, ◌^◌, List, [], ◌++◌, Option, none, some, false, ◌≡◌, ◌≢◌, refl, sym, ap, ◌∙◌, arith, All,
  map, length, plus_zero, length-map,
}
use mathlib.Core.Path.{subst}
use csyn.Common.Text.{Text}
use csyn.Common.Map.{get}
use csyn.Common.Result.{Error, ok}
use csyn.Common.Bytes.{Bytes}
use csyn.Synapse.{TopicInfo, SynapseFbs, ChecksSize}
use csyn.Types.Topic.{TopicType, subscribe_keyexpr}
use csyn.Bag.Profile.{McapNames}
use csyn.Bag.Profile.Fields.{IsHexDigit}
use csyn.Bag.Profile.Accepts.{profile_metadata_iff}
use csyn.Bag.Writer.{McapWriter, BagWriter, create, finish}
use csyn.Bag.Writer.Steps.{Message, Promises, written}
use csyn.Bag.Writer.Success.{IsAccepting}
use csyn.ContractWarning.{default}
use csyn.Commands.Clock.{StdTime, optional_deadline}
use csyn.Commands.Receive.{require_filter}
use csyn.Commands.Record.{BagRecordOptions, RecordRun, library_of, bag_record, finish_recording}
use csyn.Commands.Record.Taken.{Taken, taken, messages_for}
use csyn.Commands.Record.Written.{IsOpen}
use csyn.Commands.Record.Limit.{Fits}
use csyn.Commands.Record.Recorded.{IsSound, IsTypedAs, record_loop-Records}
use csyn.Commands.Trace.{Event, puts_of}
use csyn.Commands.Play.{PlayRun, play_loop, bag_play}
use csyn.Commands.Play.Replay.{CanPause, play_loop-Plays}
use csyn.Commands.RoundTrip.{received_as, AreReadBack-PublishAll}
use csyn.Commands.RoundTrip.Read.{
  Made, IsMade, IsFileOf, AreRead, McapFile, Resolves, turn_of, AreRead-AreReadBack,
}
use csyn.Commands.RoundTrip.Made.{Whole, Leaves, Anything, record_loop-Leaves}

library_of-nonempty : (version : Text) → library_of version ≢ []
library_of-nonempty version e = cc

module _ {F W C : Type 0} (fbs : SynapseFbs) (names : McapNames) (time : StdTime F)
    (lib : McapWriter W C) (display : Error → Text) (promises : Promises lib)
    (accepting : IsAccepting lib) (file : McapFile fbs names lib promises) where
  -- What `bag_play` finds where the file of `w` is read and the router takes every sample.
  abbrev pub play_run : W → PlayRun
  play_run w = record {
    session = ok tt;
    contents = ok tt;
    records = ok (file.records w);
    stream = ok (map (turn_of fbs names) (file.stream w));
  }

  create-ok :
      (path library session_id source : Text) (w : W)
      → lib.create library session_id source ≡ ok w
      → create lib fbs path (ok tt) session_id library source
        ≡ ok (record { writer = some w; channels = [] })
  unfolding create
  create-ok path library session_id source w e = rw (create, e) refl

  new-IsOpen :
      (type_of : Text → TopicType) (w : W)
      → IsOpen lib fbs promises type_of (record { writer = some w; channels = [] })
  unfolding get
  new-IsOpen type_of w = record {
    writer = w;
    has_writer = refl;
    named = λ key c e. cc;
    typed = λ key. refl;
  }

  finish-ok : (b : BagWriter W C) (w : W) → b.writer ≡ some w → finish lib fbs b ≡ ok tt
  unfolding finish
  finish-ok b w e = rw (finish, e, file.finishes w) refl

  finish_recording-ok :
      (n : ℕ) (b : BagWriter W C) (w : W)
      → b.writer ≡ some w
      → finish_recording time lib fbs display (ok n, b) ≡ ok (n, b)
  unfolding finish_recording
  finish_recording-ok n b w e = rw (finish_recording, finish-ok b w e) refl

  bag_play-file :
      (made : Made) (rate : F) (w : W) (n : ℕ) (events : List Event)
      → IsFileOf fbs names made (ok (file.records w))
      → time.is_at_most_zero rate ≡ false
      → play_loop time fbs names rate none none 0 (map (turn_of fbs names) (file.stream w))
        ≡ (ok n, events)
      → bag_play time fbs names rate none (play_run w) ≡ (ok n, events)
  unfolding bag_play
  bag_play-file made rate w n events kept positive played =
      rw
        (
          bag_play,
          positive,
          (profile_metadata_iff names (ok (file.records w)) kept.metadata).1 kept.accepted,
          played,
        )
        refl

  module _ (type_of : Text → TopicType) (rate : F) (run : RecordRun) (options : BagRecordOptions F)
      (forced_type : Option TopicType) (deadline : Option ℕ) where
    abbrev pub made : Made
    made = record {
      library = library_of run.version;
      session_id = run.session_id;
      source = options.source;
    }

    -- The accepted samples of the run before the deadline, up to the limit.
    abbrev pub to_record : List Taken
    to_record = taken fbs forced_type deadline options.max_messages 0 run.rounds

    -- A recording that succeeds and leaves a file of its library, session and source, and a replay of that file which publishes each
    -- recorded sample once, in the order of arrival, under its key, with its payload and encoding.
    abbrev pub Replays : List Message → Type 0
    Replays ms =
        (b : BagWriter W C) × (w : W) × (events : List Event) × (bag_record time lib fbs display run
            options
          ≡ ok (length ms % 2 ^ 64, b))
        × (b.writer ≡ some w)
        × (promises.messages w ≡ ms)
        × IsFileOf fbs names made (ok (file.records w))
        × (bag_play time fbs names rate none (play_run w)
            ≡ (ok (length to_record % 2 ^ 64), events))
        × (puts_of events ≡ map (received_as fbs) to_record)

    abbrev MadeHere : W → Type 0
    MadeHere w = file.made_for w ≡ made

    added_keeps :
        (topic : TopicInfo) (key : Text) (w : W)
        → MadeHere w
        → MadeHere (lib.add_topic topic key w).1
    added_keeps topic key w h = file.adding topic key w ∙ h

    written_keeps :
        (c : C) (log time_ns : ℕ) (contents : Bytes) (w : W)
        → MadeHere w
        → MadeHere (lib.write c log time_ns contents w).2
    written_keeps c log time_ns contents w h = file.writing c log time_ns contents w ∙ h

    -- Over an MCAP writer and reader that keep their promises and do not fail, and a decoder that checks sizes: where the command line, the
    -- subscription, the output file and the clock give no error, the source is not empty and the session identity is 32 lowercase
    -- hexadecimal digits, no poll fails and no value contract makes
    -- `from_value_encoding` panic, the limit is a 64-bit word, and the samples that are to be recorded have one type for each key,
    -- which is looked up by its schema name, and can be stored as `ms`: `bag record` succeeds and leaves exactly the messages `ms`,
    -- in a file of the profile that names the library of this version, the session and the source; and `bag play` of that file at a positive rate, where no pause is too long, no shutdown is asked for and every `put`
    -- succeeds, succeeds and publishes each of these samples once, in order, with its key, payload and encoding.
    pub bag_record-bag_play :
        (keyexpr : Text) (ms : List Message)
        → ChecksSize fbs
        → CanPause time rate
        → time.is_at_most_zero rate ≡ false
        → subscribe_keyexpr fbs options.keyexpr ≡ ok keyexpr
        → run.subscribe keyexpr ≡ ok tt
        → require_filter fbs options.ty ≡ ok forced_type
        → run.file ≡ ok tt
        → options.source ≢ []
        → length run.session_id ≡ 32
        → All IsHexDigit run.session_id
        → optional_deadline time run.started options.duration ≡ ok deadline
        → All (λ r. IsSound fbs forced_type r.poll) run.rounds
        → All (IsTypedAs type_of) to_record
        → All (Resolves fbs names) to_record
        → messages_for fbs to_record ≡ ok ms
        → Fits options.max_messages 0
        → Replays ms
    unfolding bag_record
    bag_record-bag_play keyexpr ms checks can positive subscribes subscribed typed_by opened source
          size digits until sound typed resolves e fits =
        let is_made : IsMade made = record {
          has_library = library_of-nonempty run.version;
          has_source = source;
          session_size = size;
          session_digits = digits;
        } in
        let (w0, created, empty, made_is) = file.creates made is_made in
        let b0 : BagWriter W C = record { writer = some w0; channels = [] } in
        let (b, looped, o, more) =
          record_loop-Records lib fbs display promises accepting type_of forced_type deadline
            options.max_messages default 0 run.rounds b0 ms sound typed e fits
            (new-IsOpen type_of w0) in
        let w = o.writer in
        let held : promises.messages w ≡ ms =
          subst (λ x. written lib fbs promises x ≡ promises.messages w0 ++ ms) o.has_writer more
          ∙ ap (λ x. x ++ ms) empty in
        let whole : Whole lib fbs MadeHere added_keeps written_keeps b.writer =
          (subst
            (λ r.
              Leaves lib fbs MadeHere added_keeps written_keeps
                (Anything lib fbs MadeHere added_keeps written_keeps) r)
            looped
            (record_loop-Leaves lib fbs MadeHere added_keeps written_keeps display forced_type
              deadline options.max_messages run.rounds default 0 b0 made_is)).1 in
        let here : file.made_for w ≡ made =
          subst (Whole lib fbs MadeHere added_keeps written_keeps) o.has_writer whole in
        let kept : IsFileOf fbs names made (ok (file.records w)) =
          subst (λ m. IsFileOf fbs names m (ok (file.records w))) here
            (file.profiled w (subst IsMade (sym here) is_made)) in
        let (events, replayed, puts) =
          play_loop-Plays time fbs names rate none none 0 (map (turn_of fbs names) (file.stream w))
            (map (received_as fbs) to_record) can (omega arith)
            (AreReadBack-PublishAll fbs names to_record ms _ checks e (
              AreRead-AreReadBack fbs names to_record ms (file.stream w) e resolves
                (subst (λ x. AreRead fbs names x (file.stream w)) held (file.read_back w)))) in
        (
          b,
          w,
          events,
          rw (bag_record, subscribes, subscribed, typed_by, opened)
              (rw
                (
                  create-ok options.output (library_of run.version) run.session_id options.source w0
                      created,
                  until,
                  looped,
                )
                (finish_recording-ok _ b w o.has_writer ∙ λ i.
                  ok (plus_zero (length ms) i % 2 ^ 64, b))),
          o.has_writer,
          held,
          kept,
          bag_play-file made rate w _ events kept positive (
              replayed ∙ λ i. (
                ok (
                    (plus_zero (length (map (received_as fbs) to_record))
                        ∙ length-map (received_as fbs) to_record)
                      i
                    % 2 ^ 64),
                events,
              )),
          puts,
        )
