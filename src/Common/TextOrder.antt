-- ===== src/Common/TextOrder.antt =====
-- Equality of texts decides paths, and the order of texts is a strict total order.
use csyn.Common.{ℕ, ◌≡◌, refl, ◌↔◌, true, false, List, [], ◌∷◌, arith}
use csyn.Common.Text.{Text, list_eq, text_lt}

pub list_eq_sound : (xs ys : List ℕ) → list_eq xs ys ≡ true → xs ≡ ys
unfolding list_eq
list_eq_sound [] [] h = refl
list_eq_sound (x ∷ xs) (y ∷ ys) h = ground (arith, list_eq_sound xs ys)
list_eq_sound xs ys h = cc

pub list_eq_refl : (xs : List ℕ) → list_eq xs xs ≡ true
unfolding list_eq
list_eq_refl [] = refl
list_eq_refl (x ∷ xs) = ground (arith, list_eq_refl xs)

pub list_eq_complete : (xs ys : List ℕ) → xs ≡ ys → list_eq xs ys ≡ true
list_eq_complete xs ys h = rw h (list_eq_refl ys)

-- For `ground`: the test and the equation at a pair of texts.
pub list_eq_iff : (xs ys : List ℕ) → (list_eq xs ys ≡ true) ↔ (xs ≡ ys)
list_eq_iff xs ys = (list_eq_sound xs ys, list_eq_complete xs ys)

pub text_lt_irrefl : (s : Text) → text_lt s s ≡ false
unfolding text_lt
text_lt_irrefl [] = refl
text_lt_irrefl (c ∷ s) = ground (arith, text_lt_irrefl s)

pub text_lt_trans : (s t u : Text) → text_lt s t ≡ true → text_lt t u ≡ true → text_lt s u ≡ true
unfolding text_lt
text_lt_trans [] [] u h k = cc
text_lt_trans [] (c ∷ t) [] h k = cc
text_lt_trans [] (c ∷ t) (d ∷ u) h k = refl
text_lt_trans (b ∷ s) [] u h k = cc
text_lt_trans (b ∷ s) (c ∷ t) [] h k = cc
text_lt_trans (b ∷ s) (c ∷ t) (d ∷ u) h k = ground (arith, text_lt_trans s t u)

pub text_lt_total : (s t : Text) → list_eq s t ≡ false → text_lt s t ≡ false → text_lt t s ≡ true
unfolding text_lt list_eq
text_lt_total [] [] h k = cc
text_lt_total [] (c ∷ t) h k = cc
text_lt_total (b ∷ s) [] h k = refl
text_lt_total (b ∷ s) (c ∷ t) h k = ground (arith, text_lt_total s t)

pub text_lt→ne : (s t : Text) → text_lt s t ≡ true → list_eq s t ≡ false
text_lt→ne s t h = ground (arith, list_eq_iff s t, text_lt_irrefl s)
