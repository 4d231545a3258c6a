-- ===== src/Bag/Writer/Success.antt =====
-- When a sample is written: over a writer that accepts what it is given, every convertible sample is.
use csyn.Common.{ℕ, some, ◌≡◌, refl, sym, arith, Option-cases, inl, inr}
use mathlib.Core.Path.{subst}
use csyn.Common.Text.{Text}
use csyn.Common.Bytes.{Bytes}
use csyn.Common.Map.{BTreeMap, get, insert}
use csyn.Common.Map.Laws.{get-insert_self}
use csyn.Common.Result.{ok}
use csyn.Synapse.{TopicInfo, SynapseFbs}
use csyn.Types.Topic.{TopicType, to_mcap_payload, mcap_publish_time_ns}
use csyn.Bag.Writer.{
  McapWriter, BagWriter, require_writer, ensure_channel, channel_of, write_message, write_sample,
}
use csyn.Bag.Writer.Steps.{Promises, IsNamed}
use csyn.Bag.Writer.Messages.{IsWritten, write_sample-IsWritten}

-- No operation of the writer fails.
pub record IsAccepting {W C : Type 0} (lib : McapWriter W C) : Type 0 where
  pub adds :
      (topic : TopicInfo) (key : Text) (w : W)
      → (c : C) × (w' : W) × (lib.add_topic topic key w ≡ (ok c, w'))
  pub writes :
      (c : C) (log time : ℕ) (contents : Bytes) (w : W)
      → (c' : C) × (w' : W) × (lib.write c log time contents w ≡ (ok tt, c', w'))

module _ {W C : Type 0} (lib : McapWriter W C) (fbs : SynapseFbs)
    (accepting : IsAccepting lib) where
  module _ (key : Text) (known : TopicType) (log : ℕ) (payload : Bytes) (time : ℕ) (stored : Bytes)
      (has_time : mcap_publish_time_ns fbs known payload log ≡ ok time)
      (has_stored : to_mcap_payload fbs known payload ≡ ok stored) (w : W)
      (channels : BTreeMap C) where
    abbrev open_bag : BagWriter W C
    open_bag = record { writer = some w; channels = channels }

    ready :
        (c : C) (w1 : W) (b : BagWriter W C)
        → ensure_channel lib fbs key known w open_bag ≡ (ok tt, b)
        → b.writer ≡ some w1
        → get key b.channels ≡ some c
        → (b' : BagWriter W C) × (write_sample lib fbs key known log payload open_bag ≡ (ok tt, b'))
    unfolding write_sample require_writer channel_of write_message
    ready c w1 b f h k =
        let (c', w', e) = accepting.writes c log time stored w1 in
        (
          record { writer = some w'; channels = insert key c' b.channels },
          ground (arith, f, h, k, e),
        )

    succeeds :
        (b' : BagWriter W C) × (write_sample lib fbs key known log payload open_bag ≡ (ok tt, b'))
    unfolding ensure_channel
    succeeds = elim (Option-cases (get key channels)) [
      | inr (c, f) ↦ ready c w open_bag (rw (ensure_channel, f) refl) refl f
      | inl f ↦
          let (c, w1, g) = accepting.adds known.topic key w in
          let b : BagWriter W C = record { writer = some w1; channels = insert key c channels } in
          ready c w1 b (rw (ensure_channel, f, g) refl) refl (get-insert_self key c channels)
    ]

  -- A sample whose payload has a publication time and an MCAP form, given to an open bag over a writer that does not fail,
  -- is written: one message is appended, as `IsWritten` describes it.
  pub write_sample_succeeds :
      (promises : Promises lib) (key : Text) (known : TopicType) (log : ℕ) (payload : Bytes)
      (time : ℕ) (stored : Bytes) (w : W) (b : BagWriter W C)
      → mcap_publish_time_ns fbs known payload log ≡ ok time
      → to_mcap_payload fbs known payload ≡ ok stored
      → b.writer ≡ some w
      → IsNamed lib fbs promises b
      → (b' : BagWriter W C) × (write_sample lib fbs key known log payload b ≡ (ok tt, b'))
        × IsWritten lib fbs promises key known log payload b b'
  write_sample_succeeds promises key known log payload time stored w b t p h named =
      let same : b ≡ record { writer = some w; channels = b.channels } = ground (arith, h) in
      let (b', e) = succeeds key known log payload time stored t p w b.channels in
      let written : write_sample lib fbs key known log payload b ≡ (ok tt, b') =
        subst (λ a. write_sample lib fbs key known log payload a ≡ (ok tt, b')) (sym same) e in
      (
        b',
        written,
        write_sample-IsWritten lib fbs promises key known log payload b b' named written,
      )
