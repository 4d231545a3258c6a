-- ===== src/Types/Topic/Keys.antt =====
-- The key expressions that subscribers and publishers use for one argument.
use csyn.Common.{true, none, some, ◌++◌, ◌≡◌, refl, arith, ◌⊎◌, inl, inr, Bool-cases}
use csyn.Common.Text.{Text, codes, contains}
use csyn.Common.Result.{ok, Result-cases, is_ok, is_err, is_panic}
use csyn.Synapse.{SynapseFbs}
use csyn.Types.Topic.{TopicType, find, subscribe_keyexpr, publish_key}

-- An expanded key expression has a slash.
contains-expanded : (key : Text) → contains (codes "**/" ++ (key ++ codes "/**")) b'/' ≡ true
unfolding contains
contains-expanded key = refl

module _ (fbs : SynapseFbs) where
  -- Expanding an argument a second time changes nothing, whatever the catalog holds.
  subscribe_keyexpr_idem :
      (arg keyexpr : Text)
      → subscribe_keyexpr fbs arg ≡ ok keyexpr
      → subscribe_keyexpr fbs keyexpr ≡ ok keyexpr
  unfolding subscribe_keyexpr
  subscribe_keyexpr_idem arg keyexpr e = elim (Bool-cases (contains arg b'/')) [
    | inl h ↦ ground (arith, h)
    | inr h ↦ elim (Result-cases (find fbs arg)) [
      | is_ok none f ↦ ground (arith, f)
      | is_ok (some known) f ↦
          let same : codes "**/" ++ (known.topic.key ++ codes "/**") ≡ keyexpr =
            ground (arith, f) in
          rw (← same) (rw (contains-expanded known.topic.key))
      | is_err x f ↦ ground (arith, f)
      | is_panic f ↦ ground (arith, f)
    ]
  ]

  -- Either both use the argument as it stands, or the publisher has the key of a topic and the subscriber that key between
  -- two double stars.
  pub publish-subscribe :
      (arg key keyexpr : Text)
      → publish_key fbs arg ≡ ok key
      → subscribe_keyexpr fbs arg ≡ ok keyexpr
      → ((key ≡ arg) × (keyexpr ≡ arg))
        ⊎ ((known : TopicType) × (find fbs arg ≡ ok (some known))
            × (key ≡ known.topic.key)
            × (keyexpr ≡ codes "**/" ++ (key ++ codes "/**")))
  unfolding subscribe_keyexpr publish_key
  publish-subscribe arg key keyexpr p s = elim (Result-cases (find fbs arg)) [
    | is_ok none f ↦ ground (arith, f)
    | is_ok (some known) f ↦ elim (Bool-cases (contains arg b'/')) [
      | inl h ↦ ground (arith, h)
      | inr h ↦ inr (known, f, ground arith, ground arith)
    ]
    | is_err x f ↦ ground (arith, f)
    | is_panic f ↦ ground (arith, f)
  ]
