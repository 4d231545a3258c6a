-- ===== src/Zenoh/Endpoints.antt =====
-- The endpoint that a session of rust/src/zenoh_util.rs is configured with is the one that was asked for.
use csyn.Common.{
  ℕ, List, [], ◌∷◌, ◌++◌, false, ◌==◌, ◌||◌, Option, none, some, ◌≡◌, ap, ◌∙◌, sym, All,
  if◌then◌else◌,
}
use csyn.Common.Text.{Text}
use mathlib.Core.List.{append_assoc, append-nil}
use csyn.Zenoh.{endpoints_of}

abbrev cons_text : Text → Option (List Text) → Option (List Text)
cons_text t none = none
cons_text t (some ts) = some (t ∷ ts)

-- A part of JSON5: a list of strings in double quotes that hold no escape and no line break, with no space between them. What is
-- outside this part is not read. `cur` holds the
-- part of the string that has been read.
abbrev mutual
  pub read_string : (cur : Text) → Text → Option (List Text)
  read_string cur [] = none
  read_string cur (c ∷ s) =
      let more = read_string (cur ++ (c ∷ [])) s in
      let closed = read_behind cur s in
      if c == b'"' then closed else if c == b'\\' || (c == 10 || c == 13) then none else more

  pub read_behind : (item : Text) → Text → Option (List Text)
  read_behind item [] = none
  read_behind item (c ∷ []) = if c == b']' then some (item ∷ []) else none
  read_behind item (c ∷ (d ∷ s)) =
      let more = cons_text item (read_string [] s) in
      if c == b',' then (if d == b'"' then more else none) else none

-- The strings of a list that holds one at least.
abbrev pub read_list : Text → Option (List Text)
read_list [] = none
read_list (c ∷ []) = none
read_list (c ∷ (d ∷ s)) =
    let items = read_string [] s in if c == b'[' then (if d == b'"' then items else none) else none

-- A character that does not end a string, start an escape or break the line.
abbrev pub IsPlain : ℕ → Type 0
IsPlain c = (c == b'"') ≡ false × (c == b'\\' || (c == 10 || c == 13)) ≡ false

-- What stands between two items of a list.
abbrev pub between : Text
between = b'"' ∷ (b',' ∷ (b'"' ∷ []))

read_string-append :
    (s cur rest : Text) → All IsPlain s → read_string cur (s ++ rest) ≡ read_string (cur ++ s) rest
read_string-append [] cur rest plain = ap (λ t. read_string t rest) (sym (append-nil cur))
read_string-append (c ∷ s) cur rest ((unquoted, unescaped), plain) =
    rw (unquoted, unescaped)
      (read_string-append s (cur ++ (c ∷ [])) rest plain
        ∙ ap (λ t. read_string t rest) (append_assoc cur (c ∷ []) s))

-- The endpoints `first` and `rest` in one text.
abbrev pub in_one_text : (first : Text) → (rest : List Text) → Text
in_one_text first [] = first
in_one_text first (t ∷ ts) = first ++ (between ++ in_one_text t ts)

read_string-in_one_text :
    (first : Text) (rest : List Text)
    → All IsPlain first
    → All (All IsPlain) rest
    → read_string [] (in_one_text first rest ++ (b'"' ∷ (b']' ∷ []))) ≡ some (first ∷ rest)
read_string-in_one_text first [] plain _ = read_string-append first [] (b'"' ∷ (b']' ∷ [])) plain
read_string-in_one_text first (t ∷ ts) plain (plain', others) =
    ap (read_string []) (append_assoc first (between ++ in_one_text t ts) (b'"' ∷ (b']' ∷ [])))
    ∙ (read_string-append first [] (between ++ (in_one_text t ts ++ (b'"' ∷ (b']' ∷ [])))) plain
        ∙ ap (cons_text first) (read_string-in_one_text t ts plain' others))

-- Where the endpoints are plain, the text between the brackets reads as the list of them.
pub read_list-endpoints_of :
    (first : Text) (rest : List Text)
    → All IsPlain first
    → All (All IsPlain) rest
    → read_list (endpoints_of (in_one_text first rest)) ≡ some (first ∷ rest)
unfolding endpoints_of
read_list-endpoints_of = read_string-in_one_text
