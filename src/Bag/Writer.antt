-- ===== src/Bag/Writer.antt =====
-- `BagWriter` of rust/src/bag.rs, over the MCAP writer of the `synapse_fbs` crate, which is a parameter. The
-- `HashMap` of the channels is only searched and extended, so its order is not seen.
pub mod Steps
pub mod Messages
pub mod Success
use csyn.Common.{ℕ, List, [], ◌∷◌, ◌++◌, Option, none, some}
use csyn.Common.Text.{Text, codes}
use csyn.Common.Bytes.{Bytes}
use csyn.Common.Map.{BTreeMap, get, insert}
use csyn.Common.Result.{Result, Error, ok, err, panic, context, map_err, writer_finished}
use csyn.Synapse.{TopicInfo, SynapseFbs}
use csyn.Types.Topic.{TopicType, to_mcap_payload, mcap_publish_time_ns}

-- The operations of `synapse_fbs::mcap::Writer` (`W`) and its `TopicChannel` (`C`).
pub record McapWriter (W C : Type 0) : Type 0 where
  -- `Writer::new` on an open file
  pub create : (library session_id source : Text) → Result W
  pub add_topic : TopicInfo → (key : Text) → W → Result C × W
  pub write : C → (log_time_ns publish_time_ns : ℕ) → Bytes → W → Result (Unit {0}) × C × W
  pub finish : W → Result (Unit {0})

pub record BagWriter (W C : Type 0) : Type 0 where
  pub writer : Option W
  pub channels : BTreeMap C

-- A method on `&mut self` that may fail: what it returns, and the object that it leaves.
abbrev pub Method : Type 0 → Type 0 → Type 0
Method S A = S → Result A × S

abbrev pub and_then : {S A B : Type 0} → (A → Method S B) → Result A × S → Result B × S
and_then f (ok a, s) = f a s
and_then f (err e, s) = (err e, s)
and_then f (panic, s) = (panic, s)

infixl 5 ◌>>=◌ ◌>>◌
abbrev pub ◌>>=◌ : {S A B : Type 0} → Method S A → (A → Method S B) → Method S B
◌>>=◌ m f s = and_then f (m s)

abbrev pub ◌>>◌ : {S A B : Type 0} → Method S A → Method S B → Method S B
m >> k = m >>= λ _. k

abbrev pub lift : {S A : Type 0} → Result A → Method S A
lift r s = (r, s)

module _ {W C : Type 0} (lib : McapWriter W C) (fbs : SynapseFbs) where
  -- `BagWriter::create`, on what `File::create` gave and `Uuid::new_v4().simple()`, the session id.
  unfoldable pub create :
      (path : Text)
      → Result (Unit {0})
      → (session_id library source : Text) → Result (BagWriter W C)
  create path file session_id library source =
      elim (map_err (context (codes "failed to create bag " ++ path)) file) [
        | err e ↦ err e
        | panic ↦ panic
        | ok _ ↦
            elim (map_err (context (codes "failed to start Synapse MCAP file"))
              (lib.create library session_id source)) [
                | err e ↦ err e
                | panic ↦ panic
                | ok w ↦ ok (record { writer = some w; channels = [] })
              ]
      ]

  -- `self.writer.as_mut().ok_or_else(…)`
  unfoldable pub require_writer : Method (BagWriter W C) W
  require_writer b = elim b.writer [ none ↦ (err writer_finished, b) | some w ↦ (ok w, b) ]

  abbrev pub added : Text → BagWriter W C → Result C × W → Result (Unit {0}) × BagWriter W C
  added key b (ok channel, w) =
      (ok tt, record { writer = some w; channels = insert key channel b.channels })
  added key b (err e, w) = (
    err (context (codes "failed to add Synapse MCAP channel " ++ key) e),
    record b { writer = some w },
  )
  added key b (panic, w) = (panic, record b { writer = some w })

  -- `if !self.channels.contains_key(key) { … }`
  unfoldable pub ensure_channel : Text → TopicType → W → Method (BagWriter W C) (Unit {0})
  ensure_channel key known w b = elim (get key b.channels) [
    | some channel ↦ (ok tt, b)
    | none ↦ added key b (lib.add_topic known.topic key w)
  ]

  -- `self.channels.get_mut(key).expect(…)`, with the writer as it stands by now.
  unfoldable pub channel_of : Text → Method (BagWriter W C) (C × W)
  channel_of key b = elim (get key b.channels) [
    | none ↦ (panic, b)
    | some channel ↦ elim b.writer [ none ↦ (panic, b) | some w ↦ (ok (channel, w), b) ]
  ]

  unfoldable pub write_message : Text → C → ℕ → ℕ → Bytes → W → Method (BagWriter W C) (Unit {0})
  write_message key channel log_time_ns publish_time_ns contents w b =
      let (r, channel', w') = lib.write channel log_time_ns publish_time_ns contents w in
      (
        map_err (context (codes "failed to write Synapse MCAP sample on " ++ key)) r,
        record { writer = some w'; channels = insert key channel' b.channels },
      )

  unfoldable pub write_sample : Text → TopicType → ℕ → Bytes → Method (BagWriter W C) (Unit {0})
  unfolding require_writer ensure_channel channel_of write_message
  write_sample key known log_time_ns payload = do
    writer ← require_writer
    ensure_channel key known writer
    (channel, w) ← channel_of key
    publish_time_ns ← lift (mcap_publish_time_ns fbs known payload log_time_ns)
    contents ← lift (to_mcap_payload fbs known payload)
    write_message key channel log_time_ns publish_time_ns contents w

  -- `finish`, which takes the writer out.
  unfoldable pub finish : BagWriter W C → Result (Unit {0})
  finish b = elim b.writer [
    | none ↦ panic
    | some w ↦ map_err (context (codes "failed to finish Synapse MCAP file")) (lib.finish w)
  ]
