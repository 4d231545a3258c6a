-- ===== src/Commands/Echo/Shown.antt =====
-- What `topic echo` prints.
use csyn.Common.{List, [], ◌∷◌, Bool, true, false, Option, ◌≡◌, refl, ap}
use csyn.Common.Text.{codes}
use csyn.Common.Result.{Result, ok, err, panic, Result-cases, is_ok, is_err, is_panic, context}
use csyn.Synapse.{SynapseFbs}
use csyn.Types.Topic.{TopicType}
use csyn.ContractWarning.{ContractWarningThrottle, warn}
use csyn.Commands.Receive.{Sample, Poll, timed_out, failed, received, require_value_type}
use csyn.Commands.Trace.{Trace, ◌>>◌, lift}
use csyn.Commands.Print.{EchoEncoders, TopicOutput}
use csyn.Commands.Echo.{show_sample, echo_loop}

-- A step of an echo without warnings: a sample that is shown, or the end of the command by an error or a panic.
pub data Step : Type 0 where
  shows : Sample → TopicType → Step
  ends : Result (Unit {0}) → Step

module _ (fbs : SynapseFbs) (forced_type : Option TopicType) where
  -- What is left of the polls when those that show nothing are dropped.
  unfoldable pub steps : List Poll → List Step
  steps [] = []
  steps (timed_out ∷ polls) = steps polls
  steps (failed e ∷ polls) = ends (err (context (codes "failed to receive sample") e)) ∷ steps polls
  steps (received s ∷ polls) = elim (require_value_type fbs s.key s.encoding forced_type) [
    | panic ↦ ends panic ∷ steps polls
    | err e ↦ steps polls
    | ok known ↦ shows s known ∷ steps polls
  ]

module _ (fbs : SynapseFbs) (enc : EchoEncoders) (output : TopicOutput) (raw : Bool) where
  -- The steps one after the other, up to the first that ends the command.
  unfoldable pub show_all : List Step → Trace (Unit {0})
  show_all [] = lift (ok tt)
  show_all (ends r ∷ steps) = lift r
  show_all (shows s known ∷ steps) = show_sample fbs enc output raw s known >> show_all steps

  -- The first step alone.
  unfoldable pub show_first : List Step → Trace (Unit {0})
  show_first [] = lift (ok tt)
  show_first (ends r ∷ steps) = lift r
  show_first (shows s known ∷ steps) = show_sample fbs enc output raw s known

  abbrev pub reference : Bool → List Step → Trace (Unit {0})
  reference true = show_first
  reference false = show_all

  ends_at_once :
      (once : Bool) (r : Result (Unit {0})) (steps : List Step)
      → lift r ≡ reference once (ends r ∷ steps)
  unfolding show_all show_first
  ends_at_once true r steps = refl
  ends_at_once false r steps = refl

  shown :
      (once : Bool) (s : Sample) (known : TopicType) (rest : Trace (Unit {0})) (left : List Step)
      → rest ≡ reference once left
      → (elim once [
        | true ↦ show_sample fbs enc output raw s known
        | false ↦ show_sample fbs enc output raw s known >> rest
      ])
        ≡ reference once (shows s known ∷ left)
  unfolding show_all show_first
  shown true s known rest left e = refl
  shown false s known rest left e = ap (λ r. show_sample fbs enc output raw s known >> r) e

  -- The loop shows the samples with an acceptable value contract, in the order in which they arrive, up to an error,
  -- and with `--once` the first of them only; its warnings change nothing of that.
  pub echo_loop-reference :
      (forced_type : Option TopicType) (once : Bool) (warnings : ContractWarningThrottle)
      (polls : List Poll)
      → echo_loop fbs enc output raw once forced_type warnings polls
        ≡ reference once (steps fbs forced_type polls)
  unfolding echo_loop steps show_all show_first
  echo_loop-reference forced_type true warnings [] = refl
  echo_loop-reference forced_type false warnings [] = refl
  echo_loop-reference forced_type once warnings (timed_out ∷ polls) =
      echo_loop-reference forced_type once warnings polls
  echo_loop-reference forced_type true warnings (failed e ∷ polls) = refl
  echo_loop-reference forced_type false warnings (failed e ∷ polls) = refl
  echo_loop-reference forced_type once warnings (received s ∷ polls) =
      elim (Result-cases (require_value_type fbs s.key s.encoding forced_type)) [
        | is_err x q ↦
            rw (echo_loop, steps, q)
              (echo_loop-reference forced_type once (warn warnings s.now s.key (enc.display x)).0
                polls)
        | is_panic q ↦
            rw (echo_loop, steps, q) (ends_at_once once panic (steps fbs forced_type polls))
        | is_ok known q ↦
            rw (echo_loop, steps, q)
              (shown once s known _ _ (echo_loop-reference forced_type once warnings polls))
      ]
