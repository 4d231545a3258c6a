-- ===== src/Types/Wrapper/RoundTrip.antt =====
-- Wrapping and unwrapping of fixed-layout payloads undo one another.
use csyn.Common.{
  ℕ, ◌+◌, ◌%◌, ◌^◌, ◌≤◌, ◌<◌, ◌≡◌, ◌↔◌, refl, arith, true, [], ◌++◌, length, take, drop, take-add,
  length-append, length-drop, length-take, take-append, take_all, sym, ◌∙◌,
}
use csyn.Common.Bytes.{Bytes, le_bytes}
use csyn.Common.Result.{Result, ok, err, payload_too_large}
use csyn.Types.Wrapper.{
  range_is, is_wrapped, neg_i32, wrapper_head, wrapper_tail, wrap_fixed_payload,
  unwrap_fixed_payload,
}
use csyn.Types.Wrapper.Shape.{take-range_is, range_is-append}
use mathlib.Core.List.{append_assoc}
use mathlib.Core.Path.{subst}
use native.Mathlib.Decide.{dec_le}

-- The layout that both functions speak of.
abbrev pub wrapped : Bytes → Bytes
wrapped payload =
    wrapper_head (length payload + 4) ++ (payload ++ wrapper_tail (length payload + 4))

pub length-wrapped : (payload : Bytes) → length (wrapped payload) ≡ length payload + 14
length-wrapped payload = omega (arith, length-append payload (wrapper_tail (length payload + 4)))

-- Payloads of up to 65531 bytes are wrapped, and all others are refused.
pub wrap_small :
    (payload : Bytes) → length payload ≤ 65531 → wrap_fixed_payload payload ≡ ok (wrapped payload)
unfolding wrap_fixed_payload
wrap_small payload h = ground arith

pub wrap_large :
    (payload : Bytes) → 65531 < length payload → wrap_fixed_payload payload ≡ err payload_too_large
unfolding wrap_fixed_payload
wrap_large payload h = ground arith

-- The five comparisons, at the places of a wrapped payload.
module _ (payload : Bytes) (size : ℕ) where
  abbrev head : Bytes
  head = wrapper_head size

  abbrev six : Bytes
  six = le_bytes 2 6

  abbrev object : Bytes
  object = le_bytes 2 (size % 2 ^ 16)

  abbrev four : Bytes
  four = le_bytes 2 4

  abbrev all_parts : Bytes
  all_parts = head ++ (payload ++ wrapper_tail size)

  root_is : range_is 0 4 (le_bytes 4 4) all_parts ≡ true
  root_is =
      range_is-append 0 4 [] (le_bytes 4 4)
        (le_bytes 4 (neg_i32 size) ++ (payload ++ wrapper_tail size)) refl refl

  offset_is : range_is 4 8 (le_bytes 4 (neg_i32 size)) all_parts ≡ true
  offset_is =
      range_is-append 4 8 (le_bytes 4 4) (le_bytes 4 (neg_i32 size)) (payload ++ wrapper_tail size)
        refl refl

  six_is : range_is (length payload + 8) (length payload + 10) six all_parts ≡ true
  six_is = rw (append_assoc head payload (wrapper_tail size)) at (
      range_is-append (length payload + 8) (length payload + 10) (head ++ payload) six
        (object ++ four) (omega (arith, length-append head payload)) (omega arith))

  object_is : range_is (length payload + 10) (length payload + 12) object all_parts ≡ true
  object_is = rw (append_assoc payload six (object ++ four)) at (
      range_is-append (length payload + 10) (length payload + 12) (head ++ (payload ++ six)) object
        four (omega (arith, length-append payload six)) (omega arith))

  four_is : range_is (length payload + 12) (length payload + 14) four all_parts ≡ true
  four_is = rw (append_assoc payload (six ++ object) (four ++ [])) at (
      range_is-append (length payload + 12) (length payload + 14)
        (head ++ (payload ++ (six ++ object))) four []
        (omega (arith, length-append payload (six ++ object))) (omega arith))

wrapped-is_wrapped :
    (payload : Bytes)
    → is_wrapped (wrapped payload) (length payload) (length payload + 14) (length payload + 4)
      ≡ true
wrapped-is_wrapped payload =
    let size = length payload + 4 in
    ground (
      arith,
      length-wrapped payload,
      root_is payload size,
      offset_is payload size,
      six_is payload size,
      object_is payload size,
      four_is payload size,
    )

-- Unwrapping what was wrapped gives the payload back.
pub unwrap-wrapped :
    (payload : Bytes)
    → length payload ≤ 65531
    → unwrap_fixed_payload (wrapped payload) (length payload) ≡ ok payload
unfolding unwrap_fixed_payload
unwrap-wrapped payload h =
    ground
      (arith, wrapped-is_wrapped payload, take-append payload (wrapper_tail (length payload + 4)))

regroup : (h p a b c : Bytes) → (((h ++ p) ++ a) ++ b) ++ c ≡ h ++ (p ++ (a ++ (b ++ c)))
regroup h p a b c = simp append_assoc

-- Where the comparisons hold, the bytes are those of the wrapped payload between them.
is_wrapped→wrapped :
    (bytes : Bytes) (expected : ℕ)
    → is_wrapped bytes expected (expected + 14) (expected + 4) ≡ true
    → (length (take expected (drop 8 bytes)) ≡ expected)
      × (wrapped (take expected (drop 8 bytes)) ≡ bytes)
is_wrapped→wrapped bytes n h =
    let payload = take n (drop 8 bytes) in
    let size : length bytes ≡ n + 14 = ground arith in
    let len : length payload ≡ n =
      omega (arith, length-take n (drop 8 bytes), length-drop 8 bytes) in
    let t4 : take 4 bytes ≡ le_bytes 4 4 = take-range_is 0 4 (le_bytes 4 4) bytes (ground arith) in
    let t8 = take-range_is 4 8 (le_bytes 4 (neg_i32 (n + 4))) bytes (ground arith) in
    let tn = take-add 8 n (n + 8) bytes (omega arith) in
    let t10 = take-range_is (n + 8) (n + 10) (le_bytes 2 6) bytes (ground arith) in
    let t12 =
      take-range_is (n + 10) (n + 12) (le_bytes 2 ((n + 4) % 2 ^ 16)) bytes (ground arith) in
    let t14 = take-range_is (n + 12) (n + 14) (le_bytes 2 4) bytes (ground arith) in
    let whole : (((take 8 bytes ++ payload) ++ le_bytes 2 6) ++ le_bytes 2 ((n + 4) % 2 ^ 16))
          ++ le_bytes 2 4
        ≡ bytes =
      cc (take_all (n + 14) bytes (omega arith), t14, t12, t10, tn) in
    let head_is : take 8 bytes ≡ wrapper_head (n + 4) = cc (t8, t4) in
    let size_mod = le_bytes 2 ((n + 4) % 2 ^ 16) in
    (
      len,
      rw len (
          sym (regroup (wrapper_head (n + 4)) payload (le_bytes 2 6) size_mod (le_bytes 2 4))
          ∙ rw head_is at whole),
    )

pub unwrap_of_wrap :
    (payload bytes : Bytes)
    → length payload ≤ 65531
    → wrap_fixed_payload payload ≡ ok bytes
    → unwrap_fixed_payload bytes (length payload) ≡ ok payload
unwrap_of_wrap payload bytes h e =
    let same : wrapped payload ≡ bytes = cc (wrap_small payload h, e) in
    subst (λ b. unwrap_fixed_payload b (length payload) ≡ ok payload) same
      (unwrap-wrapped payload h)

pub wrap_of_unwrap :
    (bytes : Bytes) (expected : ℕ) (payload : Bytes)
    → expected ≤ 65531
    → unwrap_fixed_payload bytes expected ≡ ok payload
    → (length payload ≡ expected) × (wrap_fixed_payload payload ≡ ok bytes)
unfolding unwrap_fixed_payload
wrap_of_unwrap bytes n payload h e = ground (arith, is_wrapped→wrapped bytes n, wrap_small payload)

-- At a size of at most 65531 bytes, unwrapping gives a payload exactly when that payload has the expected size
-- and the bytes are what wrapping it gives.
pub unwrap_iff :
    (bytes : Bytes) (expected : ℕ) (payload : Bytes)
    → expected ≤ 65531
    → (unwrap_fixed_payload bytes expected ≡ ok payload)
      ↔ ((length payload ≡ expected) × (wrap_fixed_payload payload ≡ ok bytes))
unwrap_iff bytes n payload h = (
  wrap_of_unwrap bytes n payload h,
  λ p.
      subst (λ k. unwrap_fixed_payload bytes k ≡ ok payload) p.0
        (unwrap_of_wrap payload bytes (omega arith) p.1),
)

-- What wrapping does with a payload: up to 65531 bytes it adds 14, and a longer one is refused.
pub data IsWrapResult (payload : Bytes) (r : Result Bytes) : Type 0 where
  wraps :
      (bytes : Bytes)
      → length payload ≤ 65531
      → r ≡ ok bytes
      → length bytes ≡ length payload + 14
      → unwrap_fixed_payload bytes (length payload) ≡ ok payload
      → IsWrapResult payload r
  refuses : 65531 < length payload → r ≡ err payload_too_large → IsWrapResult payload r

-- A payload of at most 65531 bytes is wrapped into 14 bytes more, which unwrap to it at its size; a longer
-- payload is refused as too large.
pub wrap_fixed_payload_total : (payload : Bytes) → IsWrapResult payload (wrap_fixed_payload payload)
wrap_fixed_payload_total payload = elim (dec_le (length payload) 65531) [
  | yes h ↦
      wraps (wrapped payload) h (wrap_small payload h) (length-wrapped payload)
        (unwrap-wrapped payload h)
  | no h ↦
      let large : 65531 < length payload = omega arith in refuses large (wrap_large payload large)
]
