-- ===== src/Commands/Info/Summed.antt =====
-- What `bag info` adds up.
use csyn.Common.{
  ℕ, ◌+◌, ◌-◌, ◌^◌, ◌≤◌, ◌<◌, min, max, List, [], ◌∷◌, Option, none, some, ◌≡◌, refl, ◌∙◌, arith,
  ltb, ◌==◌, length, All, map, Bool-cases, inl, inr, if◌then◌else◌,
}
use csyn.Common.Result.{Result, ok, panic}
use csyn.Bag.Channel.{Schema, Channel}
use csyn.Commands.Stream.{StreamMessage}
use csyn.Commands.Info.{ChannelCount, Summary, empty_summary, count_channel, add_message, info_loop}

-- The number of messages on the channel with the number `id`.
abbrev pub messages_on : ℕ → List StreamMessage → ℕ
messages_on id [] = 0
messages_on id (m ∷ ms) =
    let rest = messages_on id ms in if m.channel.id == id then 1 + rest else rest

-- The number that the map holds for `id`.
abbrev pub count_on : ℕ → List ChannelCount → ℕ
count_on id [] = 0
count_on id (e ∷ es) =
    let rest = count_on id es in if e.channel.id == id then e.count + rest else rest

abbrev pub total : List ChannelCount → ℕ
total [] = 0
total (e ∷ es) = e.count + total es

-- The entries have ascending numbers, all of them `n` or more.
abbrev pub IsAscending : ℕ → List ChannelCount → Type 0
IsAscending n [] = Unit
IsAscending n (e ∷ es) = (n ≤ e.channel.id) × IsAscending (e.channel.id + 1) es

abbrev pub earliest : List StreamMessage → ℕ
earliest [] = 2 ^ 64 - 1
earliest (m ∷ ms) = min m.log_time (earliest ms)

abbrev pub latest : List StreamMessage → ℕ
latest [] = 0
latest (m ∷ ms) = max m.log_time (latest ms)

count_channel-IsAscending :
    (n : ℕ) (channel : Channel) (es : List ChannelCount)
    → n ≤ channel.id
    → IsAscending n es
    → IsAscending n (count_channel channel es)
unfolding count_channel
count_channel-IsAscending n channel [] h a = (h, tt)
count_channel-IsAscending n channel (e ∷ es) h (b, a) =
    elim (Bool-cases (e.channel.id == channel.id)) [
      | inl same ↦ rw (count_channel, same) (b, a)
      | inr other ↦ elim (Bool-cases (ltb channel.id e.channel.id)) [
        | inl below ↦ rw (count_channel, other, below) (h, (ground arith, a))
        | inr above ↦
            let next : e.channel.id + 1 ≤ channel.id = ground arith in
            rw (count_channel, other, above)
              (b, count_channel-IsAscending (e.channel.id + 1) channel es next a)
      ]
    ]

count_on-count_channel :
    (id : ℕ) (channel : Channel) (es : List ChannelCount)
    → total es + 1 < 2 ^ 64
    → count_on id (count_channel channel es)
      ≡ (if channel.id == id then 1 + count_on id es else count_on id es)
unfolding count_channel
count_on-count_channel id channel [] h = ground arith
count_on-count_channel id channel (e ∷ es) h =
    ground (arith, count_on-count_channel id channel es (omega arith))

total-count_channel :
    (channel : Channel) (es : List ChannelCount)
    → total es + 1 < 2 ^ 64
    → total (count_channel channel es) ≡ total es + 1
unfolding count_channel
total-count_channel channel [] h = omega arith
total-count_channel channel (e ∷ es) h =
    ground (arith, total-count_channel channel es (omega arith))

abbrev pub HasSchema : StreamMessage → Type 0
HasSchema m = (schema : Schema) × (m.channel.schema ≡ some schema)

-- No number wraps on the way through `ms`.
record Fits (s : Summary) (ms : List StreamMessage) : Type 0 where
  messages : s.message_count + length ms < 2 ^ 64
  counts : total s.channels + length ms < 2 ^ 64
  start : s.start_time < 2 ^ 64

-- The state `s'` is `s` with the messages `ms` added.
pub record Adds (s : Summary) (ms : List StreamMessage) (s' : Summary) : Type 0 where
  pub messages : s'.message_count ≡ s.message_count + length ms
  pub per_channel : (id : ℕ) → count_on id s'.channels ≡ count_on id s.channels + messages_on id ms
  pub ascending : IsAscending 0 s'.channels
  pub start : s'.start_time ≡ min s.start_time (earliest ms)
  pub end : s'.end_time ≡ max s.end_time (latest ms)

Adds-cons :
    (s : Summary) (m : StreamMessage) (ms : List StreamMessage) (schema : Schema) (s' : Summary)
    → Fits s (m ∷ ms)
    → Adds (add_message m schema s) ms s'
    → Adds s (m ∷ ms) s'
Adds-cons s m ms schema s' f a = record {
  messages = omega (arith, a.messages, f.messages);
  per_channel = λ id. ground (
    arith,
    a.per_channel id,
    count_on-count_channel id m.channel s.channels (omega (arith, f.counts)),
  );
  ascending = a.ascending;
  start = omega (arith, a.start);
  end = omega (arith, a.end);
}

info_loop-step :
    (s : Summary) (m : StreamMessage) (messages : List (Result StreamMessage)) (o : Option Schema)
    → m.channel.schema ≡ o
    → info_loop s (ok m ∷ messages)
      ≡ elim o [ none ↦ panic | some schema ↦ info_loop (add_message m schema s) messages ]
unfolding info_loop
info_loop-step s m messages o e = rw (info_loop, e) refl

info_loop-Adds :
    (s : Summary) (ms : List StreamMessage)
    → All HasSchema ms
    → IsAscending 0 s.channels
    → Fits s ms
    → (s' : Summary) × (info_loop s (map ok ms) ≡ ok s') × Adds s ms s'
unfolding info_loop
info_loop-Adds s [] h asc f = (
  s,
  refl,
  record {
    messages = omega arith;
    per_channel = λ id. omega arith;
    ascending = asc;
    start = omega (arith, f.start);
    end = omega arith;
  },
)
info_loop-Adds s (m ∷ ms) ((schema, e), h) asc f =
    let next : Fits (add_message m schema s) ms = record {
      messages = omega (arith, f.messages);
      counts =
          omega
            (arith, f.counts, total-count_channel m.channel s.channels (omega (arith, f.counts)));
      start = omega (arith, f.start);
    } in
    let (s', run, a) =
      info_loop-Adds (add_message m schema s) ms h
        (count_channel-IsAscending 0 m.channel s.channels (omega arith) asc) next in
    (s', info_loop-step s m (map ok ms) (some schema) e ∙ run, Adds-cons s m ms schema s' f a)

-- Where all of less than 2^64 messages can be read and have channels with a schema, the loop succeeds: it counts all
-- messages, lists the channels by ascending numbers, each with the number of its messages, and gives the earliest and
-- the latest time among them.
pub info_loop-sums :
    (ms : List StreamMessage)
    → All HasSchema ms
    → length ms < 2 ^ 64
    → (s : Summary) × (info_loop empty_summary (map ok ms) ≡ ok s) × Adds empty_summary ms s
info_loop-sums ms h small =
    info_loop-Adds empty_summary ms h tt
      (record { messages = omega arith; counts = omega arith; start = omega arith })
