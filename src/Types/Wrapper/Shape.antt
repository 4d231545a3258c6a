-- ===== src/Types/Wrapper/Shape.antt =====
-- Cutting a byte slice at positions: what the comparisons of `unwrap_fixed_payload` see.
use csyn.Common.{
  ℕ, ◌+◌, ◌-◌, ◌≤◌, ◌≡◌, arith, true, some, ◌++◌, length, take, drop, take-add, length-append,
  take-append, drop-append, get_range, ap, ◌∙◌,
}
use csyn.Common.TextOrder.{list_eq_iff, list_eq_refl}
use csyn.Common.Bytes.{Bytes}
use csyn.Types.Wrapper.{range_is}

-- A comparison that holds: the first `to` bytes are the first `from` bytes and the part.
pub take-range_is :
    (from to : ℕ) (bytes payload : Bytes)
    → range_is from to bytes payload ≡ true
    → take to payload ≡ take from payload ++ bytes
unfolding range_is
take-range_is from to bytes payload h =
    let inside : from ≤ to = ground arith in
    let part : take (to - from) (drop from payload) ≡ bytes =
      ground (arith, list_eq_iff (take (to - from) (drop from payload)) bytes) in
    take-add from (to - from) to payload (omega arith)
    ∙ ap (λ (t : Bytes). take from payload ++ t) part

-- The part of a slice that stands behind `from` bytes.
pub get_range-append :
    (from to : ℕ) (before bytes after : Bytes)
    → length before ≡ from
    → from + length bytes ≡ to
    → get_range from to (before ++ (bytes ++ after)) ≡ some bytes
get_range-append from to before bytes after h k =
    let there : drop from (before ++ (bytes ++ after)) ≡ bytes ++ after =
      rw (← h) (drop-append before (bytes ++ after)) in
    let size : to - from ≡ length bytes = omega arith in
    let cut : take (to - from) (drop from (before ++ (bytes ++ after))) ≡ bytes =
      rw (there, size) (take-append bytes after) in
    let fits : to ≤ length (before ++ (bytes ++ after)) =
      omega (arith, length-append before (bytes ++ after), length-append bytes after) in
    ground (arith, cut, fits)

pub range_is-append :
    (from to : ℕ) (before bytes after : Bytes)
    → length before ≡ from
    → from + length bytes ≡ to
    → range_is from to bytes (before ++ (bytes ++ after)) ≡ true
unfolding range_is
range_is-append from to before bytes after h k =
    rw (get_range-append from to before bytes after h k, range_is) (list_eq_refl bytes)
