-- ===== src/Tests/Wrapping.antt =====
-- Wrapping and unwrapping of a payload of three bytes.
use csyn.Common.{◌≡◌, ◌↔◌, refl, arith, [], ◌∷◌, some, length, get_range}
use csyn.Common.Text.{list_eq}
use csyn.Common.Bytes.{Bytes}
use csyn.Common.Result.{ok, err, invalid_wrapper}
use csyn.Types.Wrapper.{wrap_fixed_payload, unwrap_fixed_payload, range_is}
use csyn.Types.Wrapper.RoundTrip.{unwrap_iff, IsWrapResult, wrap_fixed_payload_total}
use csyn.Types.Wrapper.Table.{IsRootTable, wrap-IsRootTable}

abbrev payload : Bytes
payload = 0xaa ∷ 0xbb ∷ 0xcc ∷ []

abbrev bytes : Bytes
bytes = 4 ∷ 0 ∷ 0 ∷ 0 ∷ 0xf9 ∷ 0xff ∷ 0xff ∷ 0xff ∷ 0xaa ∷ 0xbb ∷ 0xcc ∷ 6 ∷ 0 ∷ 7 ∷ 0 ∷ 4 ∷ 0 ∷ []

wrap_payload : wrap_fixed_payload payload ≡ ok bytes
unfolding wrap_fixed_payload
wrap_payload = refl

unwrap_bytes : unwrap_fixed_payload bytes 3 ≡ ok payload
unfolding unwrap_fixed_payload range_is list_eq
unwrap_bytes = refl

unwrap_other_size : unwrap_fixed_payload bytes 4 ≡ err (invalid_wrapper 17 18)
unfolding unwrap_fixed_payload range_is list_eq
unwrap_other_size = refl

unwrap_iff_example :
    (unwrap_fixed_payload bytes 3 ≡ ok payload)
    ↔ ((length payload ≡ 3) × (wrap_fixed_payload payload ≡ ok bytes))
unwrap_iff_example = unwrap_iff bytes 3 payload (omega arith)

wrap_fixed_payload_total_example : IsWrapResult payload (wrap_fixed_payload payload)
wrap_fixed_payload_total_example = wrap_fixed_payload_total payload

wrap-IsRootTable_example : IsRootTable bytes 4 11 7 4 × (get_range 8 11 bytes ≡ some payload)
wrap-IsRootTable_example = wrap-IsRootTable payload bytes wrap_payload
