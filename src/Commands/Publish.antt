-- ===== src/Commands/Publish.antt =====
-- `topic_pub` of rust/src/main.rs. The loop runs on fuel, since without a limit only the shutdown flag ends it; a round
-- is known by its number, and what it reads is an input.
pub mod Sent
pub mod Once
use csyn.Common.{
  ℕ, zero, suc, ◌+◌, ◌*◌, ◌/◌, ◌%◌, ◌^◌, List, [], ◌∷◌, ◌++◌, Bool, true, false, ◌||◌, Option, none,
  some, ltb, if◌then◌else◌,
}
use csyn.Common.Text.{Text, codes}
use csyn.Common.Bytes.{Bytes}
use csyn.Common.Result.{
  Result, ok, err, panic, map_err, context, expect, payload_missing, payload_ambiguous,
}
use csyn.Synapse.{SynapseFbs}
use csyn.Types.Topic.{decode, require, publish_key, zenoh_encoding}
use csyn.Commands.Clock.{StdTime}
use csyn.Commands.Record.Loop.{is_reached}
use csyn.Commands.Trace.{Publication, Event, slept, put, Trace, ◌>>=◌, ◌>>◌, lift, emit}

-- `c.encode_utf8`
unfoldable pub utf8_of : ℕ → Bytes
utf8_of c =
    if ltb c 0x80
    then c ∷ []
    else if ltb c 0x800
    then (0xc0 + c / 2 ^ 6) ∷ ((0x80 + c % 2 ^ 6) ∷ [])
    else if ltb c 0x10000
    then (0xe0 + c / 2 ^ 12) ∷ ((0x80 + c / 2 ^ 6 % 2 ^ 6) ∷ ((0x80 + c % 2 ^ 6) ∷ []))
    else (0xf0 + c / 2 ^ 18)
      ∷ ((0x80 + c / 2 ^ 12 % 2 ^ 6) ∷ ((0x80 + c / 2 ^ 6 % 2 ^ 6) ∷ ((0x80 + c % 2 ^ 6) ∷ [])))

-- `text.into_bytes()`
unfoldable pub into_bytes : Text → Bytes
into_bytes [] = []
into_bytes (c ∷ s) = utf8_of c ++ into_bytes s

pub record TopicPubArgs (F : Type 0) : Type 0 where
  pub topic : Text
  pub ty : Text
  pub file : Option Text
  pub text : Option Text
  pub rate : F
  pub count : Option ℕ

-- What the session and the file system give to one run: the file, the session, and for each round the shutdown flag and
-- the outcome of `put`.
pub record PubRun : Type 0 where
  pub read : Text → Result Bytes
  pub session : Result (Unit {0})
  pub shutdown : ℕ → Bool
  pub published : ℕ → Result (Unit {0})

-- The payload that the arguments name.
unfoldable pub payload_of : (Text → Result Bytes) → (file text : Option Text) → Result Bytes
payload_of read (some path) none =
    map_err (context (codes "failed to read payload file " ++ path)) (read path)
payload_of read none (some text) = ok (into_bytes text)
payload_of read none none = err payload_missing
payload_of read (some path) (some text) = err payload_ambiguous

module _ (run : PubRun) (delay count : Option ℕ) (p : Publication) where
  -- The shutdown flag is set, or the limit is reached.
  abbrev pub is_finished : ℕ → ℕ → Bool
  is_finished round sent = run.shutdown round || is_reached count sent

  unfoldable pub send : ℕ → Trace (Unit {0})
  send round = elim (run.published round) [
    | ok _ ↦ emit (put p)
    | err e ↦ lift (err (context (codes "failed to publish " ++ p.key) e))
    | panic ↦ lift panic
  ]

  -- The loop from the given round on. It gives the number of samples sent, or `none` when the fuel runs out.
  unfoldable pub pub_loop : ℕ → ℕ → ℕ → Trace (Option ℕ)
  pub_loop zero round sent = lift (ok none)
  pub_loop (suc fuel) round sent = elim (is_finished round sent) [
    | true ↦ lift (ok (some sent))
    | false ↦ elim delay [
      | none ↦ send round >> lift (ok (some ((sent + 1) % 2 ^ 64)))
      | some d ↦ send round >> emit (slept d) >> pub_loop fuel (round + 1) ((sent + 1) % 2 ^ 64)
    ]
  ]

module _ {F : Type 0} (time : StdTime F) (fbs : SynapseFbs) where
  -- `if rate > 0.0 { Some(Duration::from_secs_f64(1.0 / rate)) } else { None }`
  unfoldable pub delay_of : F → Result (Option ℕ)
  delay_of rate = if time.is_above_zero rate then some_delay (time.from_rate rate) else ok none
    where
      some_delay : Option ℕ → Result (Option ℕ)
      some_delay none = panic
      some_delay (some d) = ok (some d)

  unfoldable pub topic_pub : ℕ → PubRun → TopicPubArgs F → Trace (Option ℕ)
  topic_pub fuel run args = do
    payload ← lift (payload_of run.read args.file args.text)
    key ← lift (publish_key fbs args.topic)
    known ← lift (require fbs args.ty)
    lift (
        map_err (context (codes "payload does not match required type " ++ args.ty))
          (decode fbs known payload))
    lift run.session
    delay ← lift (delay_of args.rate)
    pub_loop run delay args.count
        (record { key = key; payload = payload; encoding = zenoh_encoding fbs known }) fuel 0 0
