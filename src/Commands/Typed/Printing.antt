-- ===== src/Commands/Typed/Printing.antt =====
-- The commands that only print send nothing.
use csyn.Common.{arith, List, [], ◌∷◌, ◌++◌, Bool, Option, none, some, Bool-cases, inl, inr}
use csyn.Common.Text.{Text, codes}
use csyn.Common.Bytes.{Bytes}
use csyn.Common.Result.{Result, map_err, context, Result-cases, is_ok, is_err, is_panic}
use csyn.Synapse.{SynapseFbs, TopicInfo}
use csyn.Types.Topic.{TopicType, from_topic, require, subscribe_keyexpr}
use csyn.ContractWarning.{ContractWarningThrottle, default, warn}
use csyn.Bag.Profile.{McapNames, profile_metadata}
use csyn.Commands.Receive.{
  Poll, timed_out, failed, received, Sample, require_value_type, require_filter,
}
use csyn.Commands.Stream.{StreamMessage, is_filtered, decode_message}
use csyn.Commands.Print.{EchoEncoders, TopicOutput, debug, json, print_sample}
use csyn.Commands.Echo.{show_sample, echo_loop, topic_echo}
use csyn.Commands.Export.{
  Encoders, ExportTurn, ExportRun, BagExportFormat, jsonl, frame_of, open_output, export_message,
  export_loop, bag_export_jsonl, bag_export,
}
use csyn.Commands.TypeInfo.{
  TypeCommand, type_list, type_show, list_types, show_lines, schema_lines, run_type,
}
use csyn.Commands.Trace.{Publication}
use csyn.Commands.Typed.{Sends, bind-Sends, lift-Sends, print_all-Sends}

module _ (fbs : SynapseFbs) (P : Publication → Type 0) where
  module _ (enc : EchoEncoders) (output : TopicOutput) (raw : Bool) where
    print_sample-Sends :
        (output : TopicOutput) (topic : Text) (known : Option TopicType) (payload : Bytes)
        → Sends P (print_sample fbs enc topic known payload output)
    unfolding print_sample
    print_sample-Sends debug topic none payload = tt
    print_sample-Sends debug topic (some known) payload = ground arith
    print_sample-Sends json topic none payload = ground arith
    print_sample-Sends json topic (some known) payload = ground arith

    show_sample-Sends :
        (s : Sample) (known : TopicType) → Sends P (show_sample fbs enc output raw s known)
    unfolding show_sample
    show_sample-Sends s known = elim (Bool-cases raw) [
      | inl r ↦ rw (show_sample, r) tt
      | inr r ↦ rw (show_sample, r) (print_sample-Sends output s.key (some known) s.payload)
    ]

    echo_loop-Sends :
        (once : Bool) (forced_type : Option TopicType) (polls : List Poll)
        (warnings : ContractWarningThrottle)
        → Sends P (echo_loop fbs enc output raw once forced_type warnings polls)
    unfolding echo_loop
    echo_loop-Sends once forced_type [] warnings = tt
    echo_loop-Sends once forced_type (timed_out ∷ polls) warnings =
        echo_loop-Sends once forced_type polls warnings
    echo_loop-Sends once forced_type (failed e ∷ polls) warnings = tt
    echo_loop-Sends once forced_type (received s ∷ polls) warnings =
        elim (Result-cases (require_value_type fbs s.key s.encoding forced_type)) [
          | is_panic q ↦ rw (echo_loop, q) tt
          | is_err x q ↦
              rw (echo_loop, q)
                (echo_loop-Sends once forced_type polls
                  (warn warnings s.now s.key (enc.display x)).0)
          | is_ok known q ↦ elim (Bool-cases once) [
            | inl o ↦ rw (echo_loop, q, o) (show_sample-Sends s known)
            | inr o ↦
                rw (echo_loop, q, o)
                  (bind-Sends P (show_sample fbs enc output raw s known) _
                    (show_sample-Sends s known)
                    λ u e. echo_loop-Sends once forced_type polls warnings)
          ]
        ]

    pub topic_echo-Sends :
        (once : Bool) (subscribe : Text → Result (Unit {0})) (topic : Text) (ty : Option Text)
        (polls : List Poll)
        → Sends P (topic_echo fbs enc output raw once subscribe topic ty polls)
    unfolding topic_echo
    topic_echo-Sends once subscribe topic ty polls =
        lift-Sends P (subscribe_keyexpr fbs topic) _ λ keyexpr e1.
          lift-Sends P (subscribe keyexpr) _ λ u e2.
            lift-Sends P (require_filter fbs ty) _
              λ forced_type e3. echo_loop-Sends once forced_type polls default

  module _ (names : McapNames) (enc : Encoders) where
    export_message-Sends :
        (written : Result (Unit {0})) (message : StreamMessage)
        → Sends P (export_message fbs names enc written message)
    unfolding export_message
    export_message-Sends written message = lift-Sends P (decode_message fbs names message) _ λ d e1.
        lift-Sends P (enc.to_json (frame_of fbs names enc message d)) _
          λ line e2. lift-Sends P written _ λ u e3. tt

    export_loop-Sends :
        (topic_filter : Option Text) (turns : List ExportTurn)
        → Sends P (export_loop fbs names enc topic_filter turns)
    unfolding export_loop
    export_loop-Sends topic_filter [] = tt
    export_loop-Sends topic_filter (t ∷ turns) = elim (Result-cases t.message) [
      | is_panic q ↦ rw (export_loop, q) tt
      | is_err x q ↦ rw (export_loop, q) tt
      | is_ok message q ↦ elim (Bool-cases (is_filtered topic_filter message.channel.topic)) [
        | inl skipped ↦ rw (export_loop, q, skipped) (export_loop-Sends topic_filter turns)
        | inr passes ↦
            rw (export_loop, q, passes)
              (bind-Sends P (export_message fbs names enc t.written message) _
                (export_message-Sends t.written message)
                λ u e. export_loop-Sends topic_filter turns)
      ]
    ]

    pub bag_export-Sends :
        (run : ExportRun) (output : Option Text) (format : BagExportFormat)
        (topic_filter : Option Text)
        → Sends P (bag_export fbs names enc run output format topic_filter)
    unfolding bag_export bag_export_jsonl
    bag_export-Sends run output jsonl topic_filter = lift-Sends P run.contents _ λ u e1.
        lift-Sends P (profile_metadata names run.records) _ λ v e2.
          lift-Sends P (open_output run.create output) _ λ w e3.
            lift-Sends P (map_err (context (codes "failed to open bag")) run.stream) _ λ turns e4.
              bind-Sends P (export_loop fbs names enc topic_filter turns) _
                (export_loop-Sends topic_filter turns) λ x e5. tt

  module _ (version : Text) where
    list_types-Sends : (topics : List TopicInfo) → Sends P (list_types fbs version topics)
    unfolding list_types
    list_types-Sends [] = tt
    list_types-Sends (topic ∷ topics) =
        lift-Sends P (from_topic fbs topic) _ λ known e1. list_types-Sends topics

    pub run_type-Sends : (command : TypeCommand) → Sends P (run_type fbs version command)
    unfolding run_type
    run_type-Sends type_list = list_types-Sends fbs.topics
    run_type-Sends (type_show ty show_fbs) = lift-Sends P (require fbs ty) _ λ known e1.
        print_all-Sends P (show_lines fbs version known ++ schema_lines fbs version show_fbs known)
