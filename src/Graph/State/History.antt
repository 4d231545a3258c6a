-- ===== src/Graph/State/History.antt =====
-- The entry of a topic, described by the samples that were observed.
use csyn.Common.{
  ℕ, ◌+◌, ◌≤◌, ◌%◌, ◌^◌, List, [], ◌∷◌, ◌++◌, Option, none, some, ◌≡◌, refl, arith, All, All-append,
  filter, length, Bool-cases, inl, inr, ◌∙◌, if◌then◌else◌,
}
use csyn.Common.Text.{Text, list_eq}
use csyn.Common.TextOrder.{list_eq_sound}
use mathlib.Core.Path.{subst}
use csyn.Common.Map.{get}
use csyn.Common.Map.Laws.{get-insert}
use csyn.Graph.State.{
  TopicStats, GraphState, new, elapsed_ms, trim, or_root, first_stats, or_first, count_sample,
  observe_topic,
}
use csyn.Graph.State.Window.{in_window, IsAscending, window_push, IsAscending-concat}

-- A sample, with the time on the state's clock at which it was observed.
pub record Sample : Type 0 where
  pub instant : ℕ
  pub topic : Text
  pub payload_len : ℕ
  pub root_type : Option Text

-- The state after a history, which holds the latest sample first.
unfoldable pub after : GraphState → List Sample → GraphState
after s [] = s
after s (o ∷ older) = observe_topic (after s older) o.instant o.topic o.payload_len o.root_type

-- The samples of one topic.
abbrev pub samples_of : Text → List Sample → List Sample
samples_of key [] = []
samples_of key (o ∷ older) =
    if list_eq o.topic key then o ∷ samples_of key older else samples_of key older

-- The type that the earliest typed sample names.
abbrev pub earliest_root : List Sample → Option Text
earliest_root [] = none
earliest_root (o ∷ older) = or_root (earliest_root older) o.root_type

abbrev pub total_bytes : List Sample → ℕ
total_bytes [] = 0
total_bytes (o ∷ older) = total_bytes older + o.payload_len

module _ (started : ℕ) where
  -- The times of a history, the oldest first.
  abbrev pub times : List Sample → List ℕ
  times [] = []
  times (o ∷ older) = times older ++ (elapsed_ms started o.instant ∷ [])

  -- What the entry of a topic must be after its samples.
  abbrev pub entry : Text → List Sample → Option TopicStats
  entry key [] = none
  entry key (o ∷ older) = some (record {
    topic = key;
    root_type = earliest_root (o ∷ older);
    messages = length (o ∷ older) % 2 ^ 64;
    bytes = total_bytes (o ∷ older) % 2 ^ 64;
    last_payload_bytes = o.payload_len % 2 ^ 64;
    last_seen_ms = elapsed_ms started o.instant;
    recent = filter (in_window (elapsed_ms started o.instant)) (times (o ∷ older));
  })

  -- The clock does not run backwards, up to the time `now`.
  abbrev pub IsOrdered : ℕ → List Sample → Type 0
  IsOrdered now [] = Unit
  IsOrdered now (o ∷ older) =
      (elapsed_ms started o.instant ≤ now) × IsOrdered (elapsed_ms started o.instant) older

  IsOrdered-later :
      (now later : ℕ) (es : List Sample) → now ≤ later → IsOrdered now es → IsOrdered later es
  IsOrdered-later now later [] h i = tt
  IsOrdered-later now later (o ∷ older) h (p, i) = (omega arith, i)

  IsOrdered-samples_of :
      (key : Text) (now : ℕ) (es : List Sample)
      → IsOrdered now es
      → IsOrdered now (samples_of key es)
  IsOrdered-samples_of key now [] i = tt
  IsOrdered-samples_of key now (o ∷ older) (p, i) = ground (
    arith,
    IsOrdered-samples_of key (elapsed_ms started o.instant) older i,
    IsOrdered-later (elapsed_ms started o.instant) now (samples_of key older) p,
  )

  times_below : (now : ℕ) (es : List Sample) → IsOrdered now es → All (λ t. t ≤ now) (times es)
  times_below now [] i = tt
  times_below now (o ∷ older) (p, i) =
      All-append (λ t. t ≤ now) (times older) (elapsed_ms started o.instant ∷ [])
        (times_below now older (IsOrdered-later (elapsed_ms started o.instant) now older p i))
        (p, tt)

  times-IsAscending : (now : ℕ) (es : List Sample) → IsOrdered now es → IsAscending (times es)
  times-IsAscending now [] i = tt
  times-IsAscending now (o ∷ older) (p, i) =
      IsAscending-concat (times older) (elapsed_ms started o.instant)
        (times-IsAscending (elapsed_ms started o.instant) older i)
        (times_below (elapsed_ms started o.instant) older i)

  count_sample-entry :
      (key : Text) (o : Sample) (older : List Sample) (now : ℕ)
      → IsOrdered now (o ∷ older)
      → some (
          count_sample (elapsed_ms started o.instant) o.payload_len o.root_type (
            or_first
              (entry key older)
              (first_stats (elapsed_ms started o.instant) key o.root_type)))
        ≡ entry key (o ∷ older)
  unfolding count_sample
  count_sample-entry key o [] now i = unfold trim in ground arith
  count_sample-entry key o (p ∷ older) now (h, (k, i)) = ground (
    arith,
    window_push (elapsed_ms started p.instant) (elapsed_ms started o.instant) (times (p ∷ older)) k
        (times-IsAscending (elapsed_ms started p.instant) (p ∷ older) (omega arith, i))
        (times_below (elapsed_ms started o.instant) (p ∷ older) (k, i)),
  )

module _ (connect keyexpr : Text) (started : ℕ) where
  abbrev start : GraphState
  start = new connect keyexpr started

  started-after : (es : List Sample) → (after start es).started ≡ started
  unfolding after observe_topic
  started-after [] = refl
  started-after (o ∷ older) = started-after older

  abbrev ms : Sample → ℕ
  ms o = elapsed_ms started o.instant

  -- What `observe_topic` puts into the map for the sample `o`.
  abbrev updated : Sample → List Sample → TopicStats
  updated o older =
      count_sample (ms o) o.payload_len o.root_type
        (or_first (get o.topic (after start older).topics) (first_stats (ms o) o.topic o.root_type))

  get-after_cons :
      (key : Text) (o : Sample) (older : List Sample)
      → get key (after start (o ∷ older)).topics ≡ (
          if list_eq o.topic key
          then some (updated o older)
          else get key (after start older).topics)
  unfolding after observe_topic
  get-after_cons key o older =
      rw (started-after older) (get-insert key o.topic (updated o older) (after start older).topics)

  -- After samples whose times do not fall, the entry of each topic is what its own samples say, and a topic without samples
  -- has none: the number of its samples and the sum of their sizes (both modulo 2^64), the size and the time
  -- of the last one, the type that the earliest typed one named, and the times of those that
  -- arrived at most five seconds before the last.
  pub get-after :
      (key : Text) (now : ℕ) (es : List Sample)
      → IsOrdered started now es
      → get key (after start es).topics ≡ entry started key (samples_of key es)
  get-after key now [] i = unfold get after in refl
  get-after key now (o ∷ older) (h, i) = elim (Bool-cases (list_eq o.topic key)) [
    | inl same ↦
        let ih = get-after o.topic (ms o) older i in
        let step =
          count_sample-entry started o.topic o (samples_of o.topic older) (ms o)
            (omega arith, IsOrdered-samples_of started o.topic (ms o) older i) in
        let here : some (updated o older) ≡ entry started o.topic (o ∷ samples_of o.topic older) =
          rw ih step in
        get-after_cons key o older
        ∙ rw same (
            subst (λ k. some (updated o older) ≡ entry started k (o ∷ samples_of k older))
              (list_eq_sound o.topic key same) here)
    | inr other ↦ get-after_cons key o older ∙ rw other (get-after key (ms o) older i)
  ]
