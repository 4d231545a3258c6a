-- ===== src/Commands/Print/Hex.antt =====
-- A hex dump can be read back.
use csyn.Common.{
  ℕ, ◌+◌, ◌-◌, ◌*◌, ◌/◌, ◌%◌, ◌<◌, [], ◌∷◌, Option, none, some, ◌≡◌, refl, ap, ◌∙◌, arith, ltb, All,
  if◌then◌else◌,
}
use csyn.Common.Text.{Text, join}
use csyn.Common.Bytes.{Bytes}
use csyn.Commands.Print.{hex_digit, hex_dump}

-- The value of a hexadecimal digit, and of a text of pairs of them, which any character stands between.
abbrev pub digit_value : ℕ → ℕ
digit_value c = if ltb c 58 then c - 48 else c - 87

abbrev cons_value : ℕ → ℕ → Option Bytes → Option Bytes
cons_value c d none = none
cons_value c d (some bytes) = some ((digit_value c * 16 + digit_value d) ∷ bytes)

unfoldable pub undump : Text → Option Bytes
undump [] = some []
undump (c ∷ []) = none
undump (c ∷ (d ∷ [])) = some ((digit_value c * 16 + digit_value d) ∷ [])
undump (c ∷ (d ∷ (sep ∷ s))) = cons_value c d (undump s)

digit_value-hex_digit : (n : ℕ) → n < 16 → digit_value (hex_digit n) ≡ n
digit_value-hex_digit n h = ground arith

byte_value :
    (b : ℕ) → b < 256 → digit_value (hex_digit (b / 16)) * 16 + digit_value (hex_digit (b % 16)) ≡ b
byte_value b h =
    let high : digit_value (hex_digit (b / 16)) ≡ b / 16 =
      digit_value-hex_digit (b / 16) (omega arith) in
    let low : digit_value (hex_digit (b % 16)) ≡ b % 16 =
      digit_value-hex_digit (b % 16) (omega arith) in
    (λ i. high i * 16 + low i) ∙ omega arith

-- Reading a dump gives the bytes that were dumped.
pub undump-hex_dump :
    (bytes : Bytes) → All (λ b. b < 256) bytes → undump (hex_dump bytes) ≡ some bytes
unfolding hex_dump undump join
undump-hex_dump [] h = refl
undump-hex_dump (b ∷ []) (h, hs) = ap (λ x. some (x ∷ [])) (byte_value b h)
undump-hex_dump (b ∷ (c ∷ bytes)) (h, hs) =
    ap (cons_value _ _) (undump-hex_dump (c ∷ bytes) hs)
    ∙ ap (λ x. some (x ∷ (c ∷ bytes))) (byte_value b h)
