-- ===== src/Commands/Record/Limit.antt =====
-- What is left of the limit of `bag_record`.
use csyn.Common.{
  ℕ, zero, suc, take, ◌+◌, ◌-◌, ◌%◌, ◌^◌, ◌<◌, List, [], ◌∷◌, Option, none, some, true, false, ◌≡◌,
  refl, arith, leb→le,
}
use csyn.Commands.Record.Loop.{is_reached}
use csyn.Commands.Record.Taken.{Taken, up_to}

-- The count is a 64-bit word, and so is the limit.
abbrev pub Fits : Option ℕ → ℕ → Type 0
Fits none recorded = recorded < 2 ^ 64
Fits (some limit) recorded = (limit < 2 ^ 64) × (recorded < 2 ^ 64)

pub Fits-small : (max : Option ℕ) (recorded : ℕ) → Fits max recorded → recorded < 2 ^ 64
Fits-small none recorded h = h
Fits-small (some limit) recorded h = h.1

take-nil : (n : ℕ) → take {A = Taken} n [] ≡ []
take-nil zero = refl
take-nil (suc n) = refl

abbrev pub next : ℕ → ℕ
next recorded = (recorded + 1) % 2 ^ 64

pub Fits-next : (max : Option ℕ) (recorded : ℕ) → Fits max recorded → Fits max (next recorded)
Fits-next none recorded h = omega arith
Fits-next (some limit) recorded h = (h.0, omega arith)

pub up_to-nil : (max : Option ℕ) (recorded : ℕ) → up_to max recorded [] ≡ []
up_to-nil none recorded = refl
up_to-nil (some limit) recorded = take-nil (limit - recorded)

pub up_to-reached :
    (max : Option ℕ) (recorded : ℕ) (ts : List Taken)
    → is_reached max recorded ≡ true
    → up_to max recorded ts ≡ []
up_to-reached none recorded ts h = cc
up_to-reached (some limit) recorded ts h =
    let none_left : limit - recorded ≡ 0 = omega (arith, leb→le limit recorded h) in
    rw none_left refl

pub up_to-cons :
    (max : Option ℕ) (recorded : ℕ) (t : Taken) (ts : List Taken)
    → Fits max recorded
    → is_reached max recorded ≡ false
    → up_to max recorded (t ∷ ts) ≡ t ∷ up_to max (next recorded) ts
up_to-cons none recorded t ts f h = refl
up_to-cons (some limit) recorded t ts f h =
    let below : recorded < limit = ground arith in
    let one_more : limit - recorded ≡ suc (limit - next recorded) = omega arith in rw one_more refl
