-- ===== src/Commands/Echo.antt =====
-- `topic_echo` of rust/src/main.rs. The loop runs over the polls that it makes before the shutdown.
pub mod Shown
use csyn.Common.{List, [], ◌∷◌, Bool, true, false, Option, none, some}
use csyn.Common.Text.{Text, codes}
use csyn.Common.Result.{Result, Error, ok, err, panic, context}
use csyn.Synapse.{SynapseFbs}
use csyn.Types.Topic.{TopicType, subscribe_keyexpr}
use csyn.ContractWarning.{ContractWarningThrottle, default, warn}
use csyn.Commands.Receive.{
  Sample, Poll, timed_out, failed, received, require_value_type, require_filter,
}
use csyn.Commands.Trace.{Event, printed, Trace, ◌>>=◌, ◌>>◌, lift, emit}
use csyn.Commands.Print.{EchoEncoders, TopicOutput, print_sample, hex_dump}

module _ (fbs : SynapseFbs) (enc : EchoEncoders) (output : TopicOutput) (raw : Bool) where
  unfoldable pub show_sample : Sample → TopicType → Trace (Unit {0})
  show_sample s known = elim raw [
    | true ↦ emit (printed (hex_dump s.payload))
    | false ↦ print_sample fbs enc s.key (some known) s.payload output
  ]

  unfoldable pub echo_loop :
      (once : Bool) (forced_type : Option TopicType)
      → ContractWarningThrottle
      → List Poll
      → Trace (Unit {0})
  echo_loop once forced_type warnings [] = lift (ok tt)
  echo_loop once forced_type warnings (timed_out ∷ polls) =
      echo_loop once forced_type warnings polls
  echo_loop once forced_type warnings (failed e ∷ polls) =
      lift (err (context (codes "failed to receive sample") e))
  echo_loop once forced_type warnings (received s ∷ polls) =
      elim (require_value_type fbs s.key s.encoding forced_type) [
        | panic ↦ lift panic
        | err e ↦ echo_loop once forced_type (warn warnings s.now s.key (enc.display e)).0 polls
        | ok known ↦ elim once [
          | true ↦ show_sample s known
          | false ↦ show_sample s known >> echo_loop once forced_type warnings polls
        ]
      ]

  -- `subscribe` opens the session and subscribes.
  unfoldable pub topic_echo :
      (once : Bool) (subscribe : Text → Result (Unit {0}))
      → (topic : Text) (ty : Option Text) → List Poll
      → Trace (Unit {0})
  topic_echo once subscribe topic ty polls = do
    keyexpr ← lift (subscribe_keyexpr fbs topic)
    lift (subscribe keyexpr)
    forced_type ← lift (require_filter fbs ty)
    echo_loop once forced_type default polls
