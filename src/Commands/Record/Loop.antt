-- ===== src/Commands/Record/Loop.antt =====
-- The receive loop of `bag_record`. It runs over its rounds: each reads the clocks and polls the subscriber, and
-- the list ends where the shutdown flag is seen.
use csyn.Common.{ℕ, ◌+◌, ◌%◌, ◌^◌, List, [], ◌∷◌, Option, none, some, Bool, true, false, ◌||◌, leb}
use csyn.Common.Text.{Text}
use csyn.Common.Result.{Error, ok, err, panic, context}
use csyn.Common.Text.{codes}
use csyn.Synapse.{SynapseFbs}
use csyn.Types.Topic.{TopicType}
use csyn.ContractWarning.{ContractWarningThrottle, warn}
use csyn.Bag.Channel.{unix_now_ns}
use csyn.Bag.Writer.{McapWriter, BagWriter, Method, ◌>>=◌, ◌>>◌, lift, write_sample}
use csyn.Commands.Receive.{Sample, Poll, timed_out, failed, received, require_value_type}

-- `now` is `Instant::now()`, and `clock` is the time since the epoch, if the clock is not before it.
pub record Round : Type 0 where
  pub now : ℕ
  pub poll : Poll
  pub clock : Option ℕ

abbrev pub is_reached : Option ℕ → ℕ → Bool
is_reached none value = false
is_reached (some limit) value = leb limit value

module _ {W C : Type 0} (lib : McapWriter W C) (fbs : SynapseFbs) where
  -- What the loop does with a sample of the type `known`.
  unfoldable pub record_sample : Sample → Option ℕ → TopicType → Method (BagWriter W C) (Unit {0})
  record_sample s clock known = do
    log_time_ns ← lift (unix_now_ns clock)
    write_sample lib fbs s.key known log_time_ns s.payload

module _ {W C : Type 0} (lib : McapWriter W C) (fbs : SynapseFbs) (display : Error → Text)
    (forced_type : Option TopicType) (deadline max_messages : Option ℕ) where
  -- The two tests that break the loop.
  abbrev pub should_stop : ℕ → ℕ → Bool
  should_stop now recorded = is_reached deadline now || is_reached max_messages recorded

  -- The receive loop, which gives the number of samples that were recorded.
  unfoldable pub record_loop : ContractWarningThrottle → ℕ → List Round → Method (BagWriter W C) ℕ
  record_loop warnings recorded [] = lift (ok recorded)
  record_loop warnings recorded (r ∷ rounds) = elim (should_stop r.now recorded) [
    | true ↦ lift (ok recorded)
    | false ↦ elim r.poll [
      | timed_out ↦ record_loop warnings recorded rounds
      | failed e ↦ lift (err (context (codes "failed to receive sample") e))
      | received s ↦ elim (require_value_type fbs s.key s.encoding forced_type) [
        | panic ↦ lift panic
        | err e ↦ record_loop (warn warnings s.now s.key (display e)).0 recorded rounds
        | ok known ↦
            record_sample lib fbs s r.clock known
            >> record_loop warnings ((recorded + 1) % 2 ^ 64) rounds
      ]
    ]
  ]
