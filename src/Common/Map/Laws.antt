-- ===== src/Common/Map/Laws.antt =====
-- What a lookup finds after each operation of a map.
use csyn.Common.{[], ◌∷◌, none, some, if◌then◌else◌, ◌≡◌, refl, arith}
use csyn.Common.Text.{Text, list_eq}
use csyn.Common.TextOrder.{list_eq_iff, list_eq_refl}
use csyn.Common.Map.{BTreeMap, get, insert, or_insert}

module _ {ℓ} {V : Type ℓ} where
  pub get-insert :
      (j k : Text) (v : V) (m : BTreeMap V)
      → get j (insert k v m) ≡ (if list_eq k j then some v else get j m)
  unfolding get insert
  get-insert j k v [] = refl
  get-insert j k v ((i, w) ∷ m) =
      ground (arith, list_eq_iff i k, list_eq_iff i j, list_eq_iff k j, get-insert j k v m)

  pub get-insert_self : (k : Text) (v : V) (m : BTreeMap V) → get k (insert k v m) ≡ some v
  get-insert_self k v m = simp (get-insert, list_eq_refl)

  pub get-or_insert :
      (j k : Text) (v : V) (m : BTreeMap V)
      → get j (or_insert k v m)
        ≡ elim (get j m) [ some w ↦ some w | none ↦ if list_eq k j then some v else none ]
  unfolding or_insert
  get-or_insert j k v m = ground (arith, get-insert j k v m, list_eq_iff k j)
