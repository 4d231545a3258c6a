-- ===== src/Common/Text.antt =====
-- Text as the list of its code points, and what the program uses of Rust's `str`. A search for an
-- ASCII pattern and the order of a `BTreeMap<String, _>` (the order of the UTF-8 bytes) are the same
-- over code points.
use Prim.Native.Char.{code}
use Prim.Native.String.{String}
use csyn.Common.{
  ℕ, zero, suc, ◌+◌, ◌-◌, ◌/◌, ◌%◌, Bool, true, false, ◌&&◌, ◌||◌, List, [], ◌∷◌, ◌++◌, Option,
  none, some, ltb, leb, ◌==◌, if◌then◌else◌, any, map,
}

abbrev pub Text : Type 0
Text = List ℕ

-- A literal.
abbrev pub codes : String → Text
codes String.[] = []
codes (String.◌∷◌ c s) = code c ∷ codes s

-- `==` on texts, and on byte slices.
unfoldable pub list_eq : List ℕ → List ℕ → Bool
list_eq [] [] = true
list_eq (x ∷ xs) (y ∷ ys) = x == y && list_eq xs ys
list_eq _ _ = false

-- `<` on texts: the first code points that differ decide.
unfoldable pub text_lt : Text → Text → Bool
text_lt [] [] = false
text_lt [] (y ∷ ys) = true
text_lt (x ∷ xs) [] = false
text_lt (x ∷ xs) (y ∷ ys) = ltb x y || x == y && text_lt xs ys

abbrev pub to_ascii_lowercase : ℕ → ℕ
to_ascii_lowercase c = if leb b'A' c && leb c b'Z' then c + 32 else c

unfoldable pub eq_ignore_ascii_case : Text → Text → Bool
eq_ignore_ascii_case s t = list_eq (map to_ascii_lowercase s) (map to_ascii_lowercase t)

-- `s.contains(c)` for a character.
unfoldable pub contains : Text → ℕ → Bool
contains s c = any (λ d. d == c) s

unfoldable pub starts_with : Text → Text → Bool
starts_with s [] = true
starts_with [] (p ∷ ps) = false
starts_with (c ∷ s) (p ∷ ps) = c == p && starts_with s ps

-- `s.find(pattern).map(|idx| &s[idx..])`: what stands from the first occurrence on.
unfoldable pub find_from : Text → Text → Option Text
find_from pattern [] = if starts_with [] pattern then some [] else none
find_from pattern (c ∷ s) =
    if starts_with (c ∷ s) pattern then some (c ∷ s) else find_from pattern s

-- The digits of a number, most significant first, in front of `tail`.
decimal_onto : ℕ → ℕ → Text → Text
decimal_onto zero n tail = tail
decimal_onto (suc fuel) n tail =
    let digit = 48 + n % 10 in
    let more = decimal_onto fuel (n / 10) (digit ∷ tail) in if ltb n 10 then digit ∷ tail else more

-- `n.to_string()`: a number has no more digits than its value plus one.
unfoldable pub to_string : ℕ → Text
unfolding decimal_onto
to_string n = decimal_onto (suc n) n []

-- `s.split(c)`; `cur` holds the part that is being read.
unfoldable pub split_onto : Text → ℕ → Text → List Text
split_onto cur c [] = cur ∷ []
split_onto cur c (d ∷ s) =
    let closed = split_onto [] c s in
    let longer = split_onto (cur ++ (d ∷ [])) c s in if d == c then cur ∷ closed else longer

unfoldable pub split : ℕ → Text → List Text
unfolding split_onto
split c s = split_onto [] c s

-- `parts.join(sep)`
unfoldable pub join : Text → List Text → Text
join sep [] = []
join sep (p ∷ []) = p
join sep (p ∷ (q ∷ ps)) = p ++ (sep ++ join sep (q ∷ ps))

-- `c.len_utf8()`
abbrev pub len_utf8 : ℕ → ℕ
len_utf8 c = if ltb c 0x80 then 1 else if ltb c 0x800 then 2 else if ltb c 0x10000 then 3 else 4

-- `s.len()`, in bytes.
unfoldable pub len : Text → ℕ
len [] = 0
len (c ∷ s) = len_utf8 c + len s

-- `&s[..limit]`: `none` is the panic off a character boundary or past the end.
unfoldable pub slice_to : ℕ → Text → Option Text
slice_to zero s = some []
slice_to (suc n) [] = none
slice_to (suc n) (c ∷ s) =
    let cut = slice_to (suc n - len_utf8 c) s in
    if ltb (suc n) (len_utf8 c) then none else elim cut [ none ↦ none | some t ↦ some (c ∷ t) ]
