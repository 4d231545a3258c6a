-- ===== src/Commands/RoundTrip/Made.antt =====
-- What the loop of `bag_record` keeps of the open writer.
use csyn.Common.{
  ℕ, ◌+◌, ◌%◌, ◌^◌, List, [], ◌∷◌, ◌++◌, Option, none, some, Bool-cases, Option-cases, inl, inr,
}
use mathlib.Core.Path.{subst}
use csyn.Common.Text.{Text, codes}
use csyn.Common.Bytes.{Bytes}
use csyn.Common.Map.{get}
use csyn.Common.Result.{
  Result, Error, ok, err, panic, map_err, context, Result-cases, is_ok, is_err, is_panic,
}
use csyn.Synapse.{TopicInfo, SynapseFbs}
use csyn.Types.Topic.{TopicType, to_mcap_payload, mcap_publish_time_ns}
use csyn.Bag.Channel.{unix_now_ns}
use csyn.Bag.Writer.{
  McapWriter, BagWriter, Method, and_then, ◌>>◌, lift, added, require_writer, ensure_channel,
  channel_of, write_message, write_sample,
}
use csyn.ContractWarning.{ContractWarningThrottle, warn}
use csyn.Commands.Receive.{Sample, Poll, timed_out, failed, received, require_value_type}
use csyn.Commands.Record.Loop.{Round, should_stop, record_sample, record_loop}

module _ {W C : Type 0} (lib : McapWriter W C) (fbs : SynapseFbs) (Q : W → Type 0)
    (added_keeps : (topic : TopicInfo) (key : Text) (w : W) → Q w → Q (lib.add_topic topic key w).1)
    (written_keeps : (c : C) (log time : ℕ) (contents : Bytes) (w : W)
      → Q w
      → Q (lib.write c log time contents w).2) where
  abbrev pub Whole : Option W → Type 0
  Whole none = Unit
  Whole (some w) = Q w

  -- The open writer satisfies `Q`, and a value that is returned `R`.
  abbrev pub Leaves : {A : Type 0} → (A → Type 0) → Result A × BagWriter W C → Type 0
  Leaves R (ok a, b) = R a × Whole b.writer
  Leaves R (err e, b) = Whole b.writer
  Leaves R (panic, b) = Whole b.writer

  abbrev pub Anything : {A : Type 0} → A → Type 0
  Anything a = Unit

  then-Leaves :
      {A B : Type 0} (R : A → Type 0) (S : B → Type 0) (f : A → Method (BagWriter W C) B)
      (r : Result A × BagWriter W C)
      → Leaves R r
      → ((a : A) (b : BagWriter W C) → R a → Whole b.writer → Leaves S (f a b))
      → Leaves S (and_then f r)
  then-Leaves R S f (ok a, b) (h, w) k = k a b h w
  then-Leaves R S f (err e, b) h k = h
  then-Leaves R S f (panic, b) h k = h

  lift-Leaves :
      {A : Type 0} (r : Result A) (b : BagWriter W C) → Whole b.writer → Leaves Anything (lift r b)
  lift-Leaves (ok a) b h = (tt, h)
  lift-Leaves (err e) b h = h
  lift-Leaves panic b h = h

  require_writer-Leaves : (b : BagWriter W C) → Whole b.writer → Leaves Q (require_writer lib fbs b)
  unfolding require_writer
  require_writer-Leaves b h = elim (Option-cases b.writer) [
    | inl e ↦ rw (require_writer, e) h
    | inr (w, e) ↦ rw (require_writer, e) (subst Whole e h, h)
  ]

  added-Leaves :
      (key : Text) (b : BagWriter W C) (r : Result C) (w : W)
      → Q w
      → Leaves Anything (added lib fbs key b (r, w))
  added-Leaves key b (ok c) w q = (tt, q)
  added-Leaves key b (err e) w q = q
  added-Leaves key b panic w q = q

  ensure_channel-Leaves :
      (key : Text) (known : TopicType) (w : W) (b : BagWriter W C)
      → Q w
      → Whole b.writer
      → Leaves Anything (ensure_channel lib fbs key known w b)
  unfolding ensure_channel
  ensure_channel-Leaves key known w b q h = elim (Option-cases (get key b.channels)) [
    | inr (c, e) ↦ rw (ensure_channel, e) (tt, h)
    | inl e ↦
        rw (ensure_channel, e)
          (added-Leaves key b (lib.add_topic known.topic key w).0 _
            (added_keeps known.topic key w q))
  ]

  channel_of-Leaves :
      (key : Text) (b : BagWriter W C)
      → Whole b.writer
      → Leaves (λ (x : C × W). Q x.1) (channel_of lib fbs key b)
  unfolding channel_of
  channel_of-Leaves key b h = elim (Option-cases (get key b.channels)) [
    | inl e ↦ rw (channel_of, e) h
    | inr (c, e) ↦ elim (Option-cases b.writer) [
      | inl f ↦ rw (channel_of, e, f) h
      | inr (w, f) ↦ rw (channel_of, e, f) (subst Whole f h, h)
    ]
  ]

  write_message-Leaves :
      (key : Text) (c : C) (log time : ℕ) (contents : Bytes) (w : W) (b : BagWriter W C)
      → Q w
      → Leaves Anything (write_message lib fbs key c log time contents w b)
  unfolding write_message
  write_message-Leaves key c log time contents w b q =
      lift-Leaves
        (map_err (context (codes "failed to write Synapse MCAP sample on " ++ key))
          (lib.write c log time contents w).0)
        _ (written_keeps c log time contents w q)

  write_sample-Leaves :
      (key : Text) (known : TopicType) (log : ℕ) (payload : Bytes) (b : BagWriter W C)
      → Whole b.writer
      → Leaves Anything (write_sample lib fbs key known log payload b)
  unfolding write_sample
  write_sample-Leaves key known log payload b h =
      then-Leaves Q Anything _ (require_writer lib fbs b) (require_writer-Leaves b h) λ w b1 q h1.
        then-Leaves Anything Anything _ (ensure_channel lib fbs key known w b1)
          (ensure_channel-Leaves key known w b1 q h1)
          λ u b2 t h2.
            then-Leaves (λ (x : C × W). Q x.1) Anything _ (channel_of lib fbs key b2)
              (channel_of-Leaves key b2 h2)
              λ (c, w3) b3 q3 h3.
                then-Leaves Anything Anything _
                  (lift (mcap_publish_time_ns fbs known payload log) b3) (lift-Leaves _ b3 h3)
                  λ time b4 t4 h4.
                    then-Leaves Anything Anything _ (lift (to_mcap_payload fbs known payload) b4)
                      (lift-Leaves _ b4 h4)
                      λ contents b5 t5 h5. write_message-Leaves key c log time contents w3 b5 q3

  module _ (display : Error → Text) (forced_type : Option TopicType)
      (deadline max_messages : Option ℕ) where
    abbrev loop : ContractWarningThrottle → ℕ → List Round → Method (BagWriter W C) ℕ
    loop = record_loop lib fbs display forced_type deadline max_messages

    abbrev Keeps : List Round → Type 0
    Keeps rounds =
        (warnings : ContractWarningThrottle) (recorded : ℕ) (b : BagWriter W C)
        → Whole b.writer
        → Leaves Anything (loop warnings recorded rounds b)

    recorded-Leaves :
        (s : Sample) (clock : Option ℕ) (known : TopicType) (rounds : List Round)
        → Keeps rounds
        → (warnings : ContractWarningThrottle) (recorded : ℕ) (b : BagWriter W C) → Whole b.writer
        → Leaves Anything ((record_sample lib fbs s clock known >> loop warnings recorded rounds) b)
    unfolding record_sample
    recorded-Leaves s clock known rounds ih warnings recorded b h =
        then-Leaves Anything Anything _ (record_sample lib fbs s clock known b)
          (then-Leaves Anything Anything _ (lift (unix_now_ns clock) b) (lift-Leaves _ b h)
            λ log b1 t h1. write_sample-Leaves s.key known log s.payload b1 h1)
          λ u b2 t h2. ih warnings recorded b2 h2

    polled-Leaves :
        (now : ℕ) (poll : Poll) (clock : Option ℕ) (rounds : List Round)
        → Keeps rounds
        → Keeps (record { now = now; poll = poll; clock = clock } ∷ rounds)
    unfolding record_loop
    polled-Leaves now poll clock rounds ih warnings recorded b h =
        elim (Bool-cases
          (should_stop lib fbs display forced_type deadline max_messages now recorded)) [
            | inl stops ↦ rw (record_loop, stops) (tt, h)
            | inr goes ↦ rw (record_loop, goes) (by_poll poll)
          ]
      where
        by_poll :
            (q : Poll)
            → Leaves Anything (
                (elim q as (λ x. Method (BagWriter W C) ℕ) [
                  | timed_out ↦ loop warnings recorded rounds
                  | failed e ↦ lift (err (context (codes "failed to receive sample") e))
                  | received s ↦
                      elim (require_value_type fbs s.key s.encoding forced_type)
                        as (λ x. Method (BagWriter W C) ℕ) [
                          | panic ↦ lift panic
                          | err e ↦ loop (warn warnings s.now s.key (display e)).0 recorded rounds
                          | ok known ↦
                              record_sample lib fbs s clock known
                              >> loop warnings ((recorded + 1) % 2 ^ 64) rounds
                        ]
                ])
                  b)
        by_poll timed_out = ih warnings recorded b h
        by_poll (failed e) = h
        by_poll (received s) =
            elim (Result-cases (require_value_type fbs s.key s.encoding forced_type)) [
              | is_panic q ↦ rw q h
              | is_err e q ↦ rw q (ih (warn warnings s.now s.key (display e)).0 recorded b h)
              | is_ok known q ↦
                  rw q
                    (recorded-Leaves s clock known rounds ih warnings ((recorded + 1) % 2 ^ 64) b h)
            ]

    -- Whatever is received and written, the open writer satisfies `Q` behind the loop if it does in front.
    pub record_loop-Leaves : (rounds : List Round) → Keeps rounds
    unfolding record_loop
    record_loop-Leaves [] warnings recorded b h = (tt, h)
    record_loop-Leaves (r ∷ rounds) warnings recorded b h =
        polled-Leaves r.now r.poll r.clock rounds (record_loop-Leaves rounds) warnings recorded b h
