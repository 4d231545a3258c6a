-- ===== src/Common/Map/Sorted.antt =====
-- Every operation keeps the entries sorted, so that no key stands twice.
use csyn.Common.{Bool, true, [], ◌∷◌, Option, none, some, if◌then◌else◌, ◌≡◌, refl, arith}
use csyn.Common.Text.{Text, text_lt}
use csyn.Common.TextOrder.{list_eq_iff, text_lt_trans, text_lt_total, text_lt→ne}
use csyn.Common.Map.{BTreeMap, get, insert, or_insert, retain}

module _ {ℓ} {V : Type ℓ} where
  -- Every key of the map is above `k`.
  abbrev pub IsAbove : Text → BTreeMap V → Type 0
  IsAbove k [] = Unit
  IsAbove k ((j, w) ∷ m) = (text_lt k j ≡ true) × IsAbove k m

  abbrev pub IsSorted : BTreeMap V → Type 0
  IsSorted [] = Unit
  IsSorted ((k, v) ∷ m) = IsAbove k m × IsSorted m

  IsAbove-trans : (i j : Text) (m : BTreeMap V) → text_lt i j ≡ true → IsAbove j m → IsAbove i m
  IsAbove-trans i j [] h a = tt
  IsAbove-trans i j ((k, v) ∷ m) h (b, a) = (text_lt_trans i j k h b, IsAbove-trans i j m h a)

  IsAbove-insert :
      (i k : Text) (v : V) (m : BTreeMap V)
      → text_lt i k ≡ true
      → IsAbove i m
      → IsAbove i (insert k v m)
  unfolding insert
  IsAbove-insert i k v [] h a = (h, tt)
  IsAbove-insert i k v ((j, w) ∷ m) h (b, a) = ground (arith, IsAbove-insert i k v m h a)

  pub insert-IsSorted : (k : Text) (v : V) (m : BTreeMap V) → IsSorted m → IsSorted (insert k v m)
  unfolding insert
  insert-IsSorted k v [] s = (tt, tt)
  insert-IsSorted k v ((j, w) ∷ m) (a, s) = ground (
    arith,
    list_eq_iff j k,
    text_lt_total j k,
    text_lt_total k j,
    IsAbove-trans k j m,
    IsAbove-insert j k v m,
    insert-IsSorted k v m s,
  )

  pub or_insert-IsSorted :
      (k : Text) (v : V) (m : BTreeMap V) → IsSorted m → IsSorted (or_insert k v m)
  unfolding or_insert
  or_insert-IsSorted k v m s = ground (arith, insert-IsSorted k v m s)

  retain-IsAbove :
      (keep : V → Bool) (k : Text) (m : BTreeMap V) → IsAbove k m → IsAbove k (retain keep m)
  unfolding retain
  retain-IsAbove keep k [] a = tt
  retain-IsAbove keep k ((j, w) ∷ m) (b, a) = ground (arith, retain-IsAbove keep k m a)

  pub retain-IsSorted : (keep : V → Bool) (m : BTreeMap V) → IsSorted m → IsSorted (retain keep m)
  unfolding retain
  retain-IsSorted keep [] s = tt
  retain-IsSorted keep ((j, w) ∷ m) (a, s) =
      ground (arith, retain-IsAbove keep j m a, retain-IsSorted keep m s)

  -- A key below all others is not in the map.
  get-IsAbove : (k : Text) (m : BTreeMap V) → IsAbove k m → get k m ≡ none
  unfolding get
  get-IsAbove k [] a = refl
  get-IsAbove k ((j, w) ∷ m) (b, a) =
      ground (arith, text_lt→ne k j b, list_eq_iff j k, list_eq_iff k j, get-IsAbove k m a)

  abbrev pub keep_if : (V → Bool) → Option V → Option V
  keep_if keep none = none
  keep_if keep (some v) = if keep v then some v else none

  pub get-retain :
      (keep : V → Bool) (k : Text) (m : BTreeMap V)
      → IsSorted m
      → get k (retain keep m) ≡ keep_if keep (get k m)
  unfolding get retain
  get-retain keep k [] s = refl
  get-retain keep k ((j, w) ∷ m) (a, s) =
      ground (arith, list_eq_iff j k, get-IsAbove k m, get-retain keep k m s)
