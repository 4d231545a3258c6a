-- ===== src/Types/Wrapper.antt =====
-- `wrap_fixed_payload` and `unwrap_fixed_payload` of rust/src/types.rs. A payload is the list of
-- its bytes, and a `usize` has 64 bits.
pub mod Shape
pub mod RoundTrip
pub mod Table
use csyn.Common.{
  ℕ, ◌+◌, ◌-◌, ◌%◌, ◌^◌, Bool, true, false, ◌&&◌, ◌||◌, Option, none, some, ◌++◌, length, take,
  drop, get_range, ltb, leb, ◌==◌, if◌then◌else◌,
}
use csyn.Common.Text.{list_eq}
use csyn.Common.Bytes.{Bytes, le_bytes}
use csyn.Common.Result.{
  Result, ok, err, panic, ◌>>=◌, ok_or, payload_too_large, payload_size_overflow,
  object_size_overflow, invalid_wrapper,
}

-- `a.checked_add(b)`
abbrev pub checked_add : ℕ → ℕ → Option ℕ
checked_add a b = if ltb (a + b) (2 ^ 64) then some (a + b) else none

-- `-(x as i32)` as the bits of the result. (At 2 ^ 31 a debug build panics; a release build wraps.)
abbrev pub neg_i32 : ℕ → ℕ
neg_i32 x = (2 ^ 32 - x % 2 ^ 32) % 2 ^ 32

-- What `wrap_fixed_payload` puts before and behind a payload whose object has `size` bytes.
abbrev pub wrapper_head : ℕ → Bytes
wrapper_head size = le_bytes 4 4 ++ le_bytes 4 (neg_i32 size)

abbrev pub wrapper_tail : ℕ → Bytes
wrapper_tail size = le_bytes 2 6 ++ (le_bytes 2 (size % 2 ^ 16) ++ le_bytes 2 4)

unfoldable pub wrap_fixed_payload : Bytes → Result Bytes
wrap_fixed_payload payload = do
  object_size ← ok_or payload_too_large (checked_add (length payload) 4)
  if ltb (2 ^ 16 - 1) object_size || ltb (2 ^ 32 - 1 - 14) (length payload)
      then err payload_too_large
      else ok (wrapper_head object_size ++ (payload ++ wrapper_tail object_size))

-- `payload.get(from..to) == Some(bytes)`
unfoldable pub range_is : ℕ → ℕ → Bytes → Bytes → Bool
range_is from to bytes payload = elim (get_range from to payload) [
  | none ↦ false
  | some part ↦ list_eq part bytes
]

-- The tests of `unwrap_fixed_payload`, in their order.
abbrev pub is_wrapped : Bytes → ℕ → ℕ → ℕ → Bool
is_wrapped payload expected expected_len object_size =
    length payload == expected_len
    && (range_is 0 4 (le_bytes 4 4) payload
        && (range_is 4 8 (le_bytes 4 (neg_i32 object_size)) payload
            && (range_is (expected + 8) (expected + 10) (le_bytes 2 6) payload
                && (range_is (expected + 10) (expected + 12) (le_bytes 2 (object_size % 2 ^ 16))
                      payload
                    && range_is (expected + 12) (expected + 14) (le_bytes 2 4) payload))))

unfoldable pub unwrap_fixed_payload : Bytes → ℕ → Result Bytes
unwrap_fixed_payload payload expected = do
  expected_len ← ok_or payload_size_overflow (checked_add expected 14)
  object_size ← ok_or object_size_overflow (checked_add expected 4)
  if is_wrapped payload expected expected_len object_size
      then ok (take expected (drop 8 payload))
      else err (invalid_wrapper (length payload) expected_len)
