-- ===== src/Types/Topic/Lookup.antt =====
-- `TopicType::find`: it ends without a panic, and what it finds is a catalog topic with its schema.
use csyn.Common.{
  true, false, Option, none, some, List, [], ◌∷◌, All, ◌≡◌, refl, ◌⊎◌, inl, inr, Option-cases,
  Bool-cases,
}
use csyn.Common.Text.{Text}
use csyn.Common.Result.{Result, ok}
use csyn.Synapse.{TopicInfo, EmbeddedSchema, SynapseFbs, HasSchema, IsClosed}
use csyn.Types.Topic.{
  TopicType, from_topic, infer, is_named, find_named, is_wired, find_wired, find,
}
use mathlib.Core.List.{Memᴰ}

abbrev pub IsUnnamed : Text → List TopicInfo → Type 0
IsUnnamed name topics = All (λ t. is_named name t ≡ false) topics

find_named_cases :
    (name : Text) (topics : List TopicInfo)
    → ((find_named name topics ≡ none) × IsUnnamed name topics)
      ⊎ ((t : TopicInfo) × (find_named name topics ≡ some t)
          × Memᴰ t topics
          × (is_named name t ≡ true))
unfolding find_named
find_named_cases name [] = inl (refl, tt)
find_named_cases name (t ∷ ts) = elim (Bool-cases (is_named name t)) [
  | inl h ↦ inr (t, rw h, Memᴰ.head refl, h)
  | inr h ↦ elim (find_named_cases name ts) [
    | inl (e, u) ↦ inl (rw h e, (h, u))
    | inr (x, e, m, n) ↦ inr (x, rw h e, Memᴰ.tail m, n)
  ]
]

All-Mem :
    (P : TopicInfo → Type 0) {t : TopicInfo} {topics : List TopicInfo}
    → Memᴰ t topics
    → All P topics
    → P t
All-Mem P (Memᴰ.head e) (h, hs) = rw e h
All-Mem P (Memᴰ.tail m) (h, hs) = All-Mem P m hs

module _ (fbs : SynapseFbs) where
  -- A topic with the schema of its file.
  abbrev pub IsPaired : TopicType → Type 0
  IsPaired known = fbs.schema_by_name known.topic.schema_file ≡ some known.schema

  pub from_topic-IsPaired :
      (topic : TopicInfo)
      → HasSchema fbs topic
      → (known : TopicType) × (from_topic fbs topic ≡ ok known)
        × (known.topic ≡ topic)
        × IsPaired known
  unfolding from_topic
  from_topic-IsPaired topic (schema, e) = (record { topic = topic; schema = schema }, rw e, refl, e)

  find_wired_cases :
      (name : Text) (topics : List TopicInfo)
      → All (HasSchema fbs) topics
      → ((find_wired fbs name topics ≡ ok none)
          × All
              (λ t. (s : EmbeddedSchema) → is_wired name (record { topic = t; schema = s }) ≡ false)
              topics)
        ⊎ ((known : TopicType) × (find_wired fbs name topics ≡ ok (some known))
            × Memᴰ known.topic topics
            × (is_wired name known ≡ true)
            × IsPaired known)
  unfolding find_wired
  find_wired_cases name [] h = inl (refl, tt)
  find_wired_cases name (t ∷ ts) (h, hs) =
      let (known, e, same, paired) = from_topic-IsPaired t h in
      elim (Bool-cases (is_wired name known)) [
        | inl w ↦ inr (known, rw (e, w), Memᴰ.head same, w, paired)
        | inr w ↦ elim (find_wired_cases name ts hs) [
          | inl (f, u) ↦
              inl (rw (e, w) f, (λ s. unfold is_wired in rw (← same) (unfold is_wired in w), u))
          | inr (x, f, m, n, p) ↦ inr (x, rw (e, w) f, Memᴰ.tail m, n, p)
        ]
      ]

  -- The four ways in which a search ends.
  pub data IsFindResult (name : Text) (r : Result (Option TopicType)) : Type 0 where
    by_name :
        (known : TopicType)
        → r ≡ ok (some known)
        → IsPaired known
        → Memᴰ known.topic fbs.topics
        → is_named name known.topic ≡ true
        → IsFindResult name r
    by_key :
        (known : TopicType)
        → r ≡ ok (some known)
        → IsPaired known
        → IsUnnamed name fbs.topics
        → fbs.topic_by_key name ≡ some known.topic
        → IsFindResult name r
    by_wire :
        (known : TopicType)
        → r ≡ ok (some known)
        → IsPaired known
        → IsUnnamed name fbs.topics
        → fbs.topic_by_key name ≡ none
        → Memᴰ known.topic fbs.topics
        → is_wired name known ≡ true
        → IsFindResult name r
    unknown :
        r ≡ ok none
        → IsUnnamed name fbs.topics
        → fbs.topic_by_key name ≡ none
        → All
            (λ t. (s : EmbeddedSchema) → is_wired name (record { topic = t; schema = s }) ≡ false)
            fbs.topics
        → IsFindResult name r

  -- Where the catalog is closed, a search never panics: it finds a listed topic by one of its three names; or else the
  -- topic of a key expression; or else a listed topic by its wire type or schema name; and it finds none
  -- only if no topic fits in any of these ways. What it finds carries the schema of its file.
  pub find-IsFindResult : (name : Text) → IsClosed fbs → IsFindResult name (find fbs name)
  unfolding find infer
  find-IsFindResult name c = elim (find_named_cases name fbs.topics) [
    | inr (t, e, m, n) ↦
        let (known, f, same, paired) = from_topic-IsPaired t (All-Mem (HasSchema fbs) m c.listed) in
        by_name known (rw (e, f)) paired (rw same m) (rw same n)
    | inl (e, u) ↦ elim (Option-cases (fbs.topic_by_key name)) [
      | inr (t, k) ↦
          let (known, f, same, paired) = from_topic-IsPaired t (c.by_key name t k) in
          by_key known (rw (e, k, f)) paired u (rw same k)
      | inl k ↦ elim (find_wired_cases name fbs.topics c.listed) [
        | inl (f, w) ↦ unknown (rw (e, k) f) u k w
        | inr (known, f, m, w, paired) ↦ by_wire known (rw (e, k) f) paired u k m w
      ]
    ]
  ]
