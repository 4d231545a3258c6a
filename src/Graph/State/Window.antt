-- ===== src/Graph/State/Window.antt =====
-- The arrival times that a topic keeps are those of the last five seconds.
use csyn.Common.{
  ℕ, ◌-◌, ◌≤◌, List, [], ◌∷◌, ◌++◌, ◌≡◌, refl, sym, arith, All, All-append, filter, leb, Bool, ap,
  ◌∙◌,
}
use csyn.Graph.State.{trim}

abbrev pub in_window : ℕ → ℕ → Bool
in_window now t = leb (now - t) 5000

abbrev pub IsAscending : List ℕ → Type 0
IsAscending [] = Unit
IsAscending (t ∷ ts) = All (λ u. t ≤ u) ts × IsAscending ts

pub filter-append :
    (p : ℕ → Bool) (xs ys : List ℕ) → filter p (xs ++ ys) ≡ filter p xs ++ filter p ys
filter-append p [] ys = refl
filter-append p (x ∷ xs) ys = ground (arith, filter-append p xs ys)

-- A later window cuts an earlier one down.
pub filter-in_window :
    (now later : ℕ) (xs : List ℕ)
    → now ≤ later
    → filter (in_window later) (filter (in_window now) xs) ≡ filter (in_window later) xs
filter-in_window now later [] h = refl
filter-in_window now later (x ∷ xs) h = ground (arith, filter-in_window now later xs h)

pub IsAscending-concat :
    (xs : List ℕ) (y : ℕ) → IsAscending xs → All (λ t. t ≤ y) xs → IsAscending (xs ++ (y ∷ []))
IsAscending-concat [] y a h = (tt, tt)
IsAscending-concat (x ∷ xs) y (above, a) (p, h) =
    (All-append (λ u. x ≤ u) xs (y ∷ []) above (p, tt), IsAscending-concat xs y a h)

All-filter : (P : ℕ → Type 0) (p : ℕ → Bool) (xs : List ℕ) → All P xs → All P (filter p xs)
All-filter P p [] h = tt
All-filter P p (x ∷ xs) (q, h) = ground (arith, All-filter P p xs h)

pub IsAscending-filter : (p : ℕ → Bool) (xs : List ℕ) → IsAscending xs → IsAscending (filter p xs)
IsAscending-filter p [] a = tt
IsAscending-filter p (x ∷ xs) (above, a) =
    ground (arith, All-filter (λ u. x ≤ u) p xs above, IsAscending-filter p xs a)

-- Nothing is cut from a list whose times all lie in the window.
filter_whole :
    (now t : ℕ) (xs : List ℕ)
    → now - t ≤ 5000
    → All (λ u. t ≤ u) xs
    → filter (in_window now) xs ≡ xs
filter_whole now t [] h a = refl
filter_whole now t (x ∷ xs) h (p, a) = ground (arith, filter_whole now t xs h a)

-- On ascending times the loop that drops old ones from the front drops all old ones.
pub trim-eq-filter :
    (now : ℕ) (xs : List ℕ) → IsAscending xs → trim now xs ≡ filter (in_window now) xs
unfolding trim
trim-eq-filter now [] a = refl
trim-eq-filter now (x ∷ xs) (above, a) =
    ground (arith, trim-eq-filter now xs a, filter_whole now x xs)

-- One more arrival at the time `now`, added to the window that the one before it left.
pub window_push :
    (before now : ℕ) (xs : List ℕ)
    → before ≤ now
    → IsAscending xs
    → All (λ t. t ≤ now) xs
    → trim now (filter (in_window before) xs ++ (now ∷ []))
      ≡ filter (in_window now) (xs ++ (now ∷ []))
window_push before now xs h a below =
    let kept = filter (in_window before) xs in
    let ascending =
      IsAscending-concat kept now (IsAscending-filter (in_window before) xs a)
        (All-filter (λ t. t ≤ now) (in_window before) xs below) in
    trim-eq-filter now (kept ++ (now ∷ [])) ascending
    ∙ filter-append (in_window now) kept (now ∷ [])
    ∙ ap (λ (l : List ℕ). l ++ filter (in_window now) (now ∷ [])) (filter-in_window before now xs h)
    ∙ sym (filter-append (in_window now) xs (now ∷ []))
