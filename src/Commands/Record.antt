-- ===== src/Commands/Record.antt =====
-- `bag_record` of rust/src/main.rs.
pub mod Loop
pub mod Taken
pub mod Written
pub mod Limit
pub mod Recorded
use csyn.Common.{ℕ, ◌++◌, List, Option}
use csyn.Common.Text.{Text, codes}
use csyn.Common.Result.{Result, Error, ok, err, panic, ◌>>=◌, ◌>>◌}
use csyn.Synapse.{SynapseFbs}
use csyn.Types.Topic.{subscribe_keyexpr}
use csyn.ContractWarning.{default}
use csyn.Bag.Writer.{McapWriter, BagWriter, create, finish}
use csyn.Commands.Clock.{StdTime, optional_deadline}
use csyn.Commands.Receive.{require_filter}
use csyn.Commands.Record.Loop.{Round, record_loop}

pub record BagRecordOptions (F : Type 0) : Type 0 where
  pub output : Text
  pub keyexpr : Text
  pub ty : Option Text
  pub source : Text
  pub duration : Option F
  pub max_messages : Option ℕ

-- What the session, the file system and the clock give to one run. `session_id` is that of `Uuid::new_v4().simple()`, and `version`
-- the constant `CARGO_PKG_VERSION`.
pub record RecordRun : Type 0 where
  pub subscribe : Text → Result (Unit {0})
  pub file : Result (Unit {0})
  pub session_id : Text
  pub version : Text
  pub started : ℕ
  pub rounds : List Round

abbrev pub library_of : (version : Text) → Text
library_of version = codes "csyn/" ++ version

module _ {F W C : Type 0} (time : StdTime F) (lib : McapWriter W C) (fbs : SynapseFbs)
    (display : Error → Text) where
  -- `writer.finish()?` behind the loop.
  unfoldable pub finish_recording : Result ℕ × BagWriter W C → Result (ℕ × BagWriter W C)
  finish_recording (ok recorded, b) = elim (finish lib fbs b) [
    | ok _ ↦ ok (recorded, b)
    | err e ↦ err e
    | panic ↦ panic
  ]
  finish_recording (err e, b) = err e
  finish_recording (panic, b) = panic

  -- `bag_record`: the number of samples, and the bag with the writer that was finished.
  unfoldable pub bag_record : RecordRun → BagRecordOptions F → Result (ℕ × BagWriter W C)
  bag_record run options = do
    keyexpr ← subscribe_keyexpr fbs options.keyexpr
    run.subscribe keyexpr
    forced_type ← require_filter fbs options.ty
    writer ←
        create lib fbs options.output run.file run.session_id (library_of run.version)
          options.source
    deadline ← optional_deadline time run.started options.duration
    finish_recording (
        record_loop lib fbs display forced_type deadline options.max_messages default 0 run.rounds
          writer)
