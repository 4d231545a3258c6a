-- ===== src/Common/Map.antt =====
-- `BTreeMap<String, V>`: the entries in the order of their keys.
pub mod Laws
pub mod Sorted
use csyn.Common.{ℕ, Bool, true, false, List, [], ◌∷◌, Option, none, some, if◌then◌else◌, map}
use csyn.Common.Text.{Text, list_eq, text_lt}

abbrev pub BTreeMap {ℓ} : Type ℓ → Type ℓ
BTreeMap V = List (Text × V)

module _ {ℓ} {V : Type ℓ} where
  unfoldable pub get : Text → BTreeMap V → Option V
  get k [] = none
  get k ((j, v) ∷ m) = if list_eq j k then some v else get k m

  unfoldable pub insert : Text → V → BTreeMap V → BTreeMap V
  insert k v [] = (k, v) ∷ []
  insert k v ((j, w) ∷ m) =
      if list_eq j k
      then (k, v) ∷ m
      else if text_lt k j
      then (k, v) ∷ ((j, w) ∷ m)
      else (j, w) ∷ insert k v m

  -- `entry(k).or_insert_with(|| v)`, where the entry is not changed further.
  unfoldable pub or_insert : Text → V → BTreeMap V → BTreeMap V
  or_insert k v m = elim (get k m) [ none ↦ insert k v m | some w ↦ m ]

  -- `retain(|_, v| keep(v))`
  unfoldable pub retain : (V → Bool) → BTreeMap V → BTreeMap V
  retain keep [] = []
  retain keep ((k, v) ∷ m) = if keep v then (k, v) ∷ retain keep m else retain keep m

  unfoldable pub keys : BTreeMap V → List Text
  keys m = map (λ e. e.0) m

  unfoldable pub values : BTreeMap V → List V
  values m = map (λ e. e.1) m
