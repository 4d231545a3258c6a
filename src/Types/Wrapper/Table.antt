-- ===== src/Types/Wrapper/Table.antt =====
-- A wrapped payload is a FlatBuffers root table with one field, by the published layout: an offset to the
-- table, which begins with a signed offset back to its vtable, which holds its own size, the size of
-- the table and the places of the fields.
use csyn.Common.{
  ℕ, ◌+◌, ◌-◌, ◌%◌, ◌^◌, ◌≤◌, ◌<◌, ◌≡◌, refl, arith, Option, some, [], ◌++◌, length, get_range,
  length-append, ap, ◌∙◌,
}
use csyn.Common.Bytes.{Bytes, le_bytes, from_le_bytes, from_le_bytes-u16, from_le_bytes-u32}
use csyn.Common.Result.{ok}
use csyn.Types.Wrapper.{neg_i32, wrapper_head, wrapper_tail, wrap_fixed_payload}
use csyn.Types.Wrapper.Shape.{get_range-append}
use csyn.Types.Wrapper.RoundTrip.{wrapped, wrap_small, wrap_large}
use mathlib.Core.List.{append_assoc}
use mathlib.Core.Path.{subst}
use mathlib.Core.Option
use native.Mathlib.Decide.{dec_le}

-- The little-endian word of `w` bytes at a position.
pub word_at : ℕ → ℕ → Bytes → Option ℕ
word_at w position bytes = Option.map from_le_bytes (get_range position (position + w) bytes)

-- The parts of the root table of a buffer.
pub record IsRootTable (bytes : Bytes) (table vtable object_size field : ℕ) : Type 0 where
  pub root : word_at 4 0 bytes ≡ some table
  -- The vtable is at the table's position less the signed offset that stands there.
  pub offset :
      (soffset : ℕ) × (word_at 4 table bytes ≡ some soffset)
      × ((table + 2 ^ 32 - soffset) % 2 ^ 32 ≡ vtable)
  pub vtable_size : word_at 2 vtable bytes ≡ some 6
  pub table_size : word_at 2 (vtable + 2) bytes ≡ some object_size
  pub field_place : word_at 2 (vtable + 4) bytes ≡ some field

word_at-append :
    (w position x : ℕ) (before after : Bytes)
    → length before ≡ position
    → length (le_bytes w x) ≡ w
    → from_le_bytes (le_bytes w x) ≡ x
    → word_at w position (before ++ (le_bytes w x ++ after)) ≡ some x
unfolding word_at
word_at-append w position x before after h k e =
    rw (get_range-append position (position + w) before (le_bytes w x) after h (omega arith))
      (ap (λ (n : ℕ). some n) e)

-- The parts of a wrapped payload, read as a root table.
module _ (payload : Bytes) (small : length payload ≤ 65531) where
  abbrev size : ℕ
  size = length payload + 4

  abbrev front : Bytes
  front = wrapper_head size ++ payload

  abbrev wrapped_size : Bytes
  wrapped_size = le_bytes 2 (size % 2 ^ 16)

  fits : some (size % 2 ^ 16) ≡ some size
  fits = let same : size % 2 ^ 16 ≡ size = omega arith in ap (λ (n : ℕ). some n) same

  wrapped-IsRootTable : IsRootTable (wrapped payload) 4 (length payload + 8) size 4
  wrapped-IsRootTable = record {
    root =
        word_at-append 4 0 4 [] (le_bytes 4 (neg_i32 size) ++ (payload ++ wrapper_tail size)) refl
          refl refl;
    offset = (
      neg_i32 size,
      word_at-append 4 4 (neg_i32 size) (le_bytes 4 4) (payload ++ wrapper_tail size) refl refl
          (from_le_bytes-u32 (neg_i32 size) (omega arith)),
      omega arith,
    );
    vtable_size = rw (append_assoc (wrapper_head size) payload (wrapper_tail size)) at (
        word_at-append 2 (length payload + 8) 6 front (le_bytes 2 (size % 2 ^ 16) ++ le_bytes 2 4)
          (omega arith) refl refl);
    table_size =
        rw (append_assoc payload (le_bytes 2 6) (wrapped_size ++ le_bytes 2 4)) at (
          word_at-append 2 (length payload + 8 + 2) (size % 2 ^ 16)
            (wrapper_head size ++ (payload ++ le_bytes 2 6)) (le_bytes 2 4)
            (omega (arith, length-append payload (le_bytes 2 6))) refl
            (from_le_bytes-u16 (size % 2 ^ 16) (omega arith)))
        ∙ fits;
    field_place = rw (append_assoc payload (le_bytes 2 6 ++ wrapped_size) (le_bytes 2 4)) at (
        word_at-append 2 (length payload + 8 + 4) 4
          (wrapper_head size ++ (payload ++ (le_bytes 2 6 ++ wrapped_size))) []
          (omega (arith, length-append payload (le_bytes 2 6 ++ wrapped_size))) refl refl);
  }

  wrapped_field : get_range (4 + 4) (4 + 4 + length payload) (wrapped payload) ≡ some payload
  wrapped_field =
      get_range-append (4 + 4) (4 + 4 + length payload) (wrapper_head size) payload
        (wrapper_tail size) refl refl

-- What wrapping gives is a FlatBuffers buffer: its root table stands at byte 4, its vtable directly behind the
-- payload, the table's size is the payload's and four bytes of offset, and the one field of the table is
-- the payload itself.
pub wrap-IsRootTable :
    (payload bytes : Bytes)
    → wrap_fixed_payload payload ≡ ok bytes
    → IsRootTable bytes 4 (length payload + 8) (length payload + 4) 4
      × (get_range (4 + 4) (4 + 4 + length payload) bytes ≡ some payload)
wrap-IsRootTable payload bytes e = elim (dec_le (length payload) 65531) [
  | yes h ↦
      let same : wrapped payload ≡ bytes = cc (wrap_small payload h, e) in
      subst
        (λ b.
          IsRootTable b 4 (length payload + 8) (length payload + 4) 4
          × (get_range (4 + 4) (4 + 4 + length payload) b ≡ some payload))
        same (wrapped-IsRootTable payload h, wrapped_field payload h)
  | no h ↦ let large : 65531 < length payload = omega arith in cc (wrap_large payload large, e)
]
