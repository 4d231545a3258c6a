-- ===== src/Cli.antt =====
-- The command line of rust/src/cli.rs, behind the parser that `clap` derives. `F` is `f64`; paths are texts.
use csyn.Common.{ℕ, Bool, Option}
use csyn.Common.Text.{Text}
use csyn.Commands.Publish.{TopicPubArgs}
use csyn.Commands.Print.{TopicOutput}
use csyn.Commands.Export.{BagExportFormat}
use csyn.Commands.TypeInfo.{TypeCommand}

pub record ZenohArgs : Type 0 where
  pub connect : Text

pub data TopicCommand (F : Type 0) : Type 0 where
  topic_list : (filter ty : Option Text) → (duration : F) → TopicCommand F
  topic_echo :
      (topic : Text)
      → (ty : Option Text) → (output : TopicOutput) → (once raw : Bool) → TopicCommand F
  topic_pub : TopicPubArgs F → TopicCommand F
  topic_info : (topic : Text) → (duration : F) → TopicCommand F
  topic_hz : (topic : Text) → (duration : F) → TopicCommand F
  topic_bw : (topic : Text) → (duration : F) → TopicCommand F

pub data BagCommand (F : Type 0) : Type 0 where
  bag_record :
      (keyexpr output : Text)
      → (ty : Option Text) → (source : Text) → (duration : Option F) → (max_messages : Option ℕ)
      → BagCommand F
  bag_info : (input : Text) → BagCommand F
  bag_play : (input : Text) → (rate : F) → (topic : Option Text) → BagCommand F
  bag_export :
      (input : Text)
      → (output : Option Text) → (format : BagExportFormat) → (topic : Option Text) → BagCommand F

pub data GraphCommand : Type 0 where
  graph_serve : (bind keyexpr : Text) → (admin_poll_ms : ℕ) → GraphCommand

pub data Command (F : Type 0) : Type 0 where
  build_info : Command F
  of_topic : TopicCommand F → Command F
  of_type : TypeCommand → Command F
  of_bag : BagCommand F → Command F
  of_graph : GraphCommand → Command F

pub record Cli (F : Type 0) : Type 0 where
  pub zenoh : ZenohArgs
  pub version : Bool
  pub command : Option (Command F)
