-- ===== src/Tests/Echoed.antt =====
-- Samples that are shown.
use csyn.Common.{List, [], ◌∷◌, true, false, none, some, ◌≡◌, arith}
use csyn.Common.Text.{codes}
use csyn.Common.Bytes.{Bytes}
use csyn.Common.Result.{ok}
use csyn.ContractWarning.{default}
use csyn.Commands.Receive.{Poll, timed_out, received}
use csyn.Commands.Print.{EchoEncoders, debug, hex_dump}
use csyn.Commands.Print.Hex.{undump, undump-hex_dump}
use csyn.Commands.Echo.{echo_loop}
use csyn.Commands.Echo.Shown.{steps, reference, echo_loop-reference}
use csyn.Tests.Catalog.{catalog}
use csyn.Tests.Recorded.{sample, display}

abbrev enc : EchoEncoders
enc = record { base64 = λ payload. payload; to_json = λ line. ok line.topic; display = display }

-- The second sample has no contract.
abbrev polls : List Poll
polls =
    timed_out
    ∷ (received (record sample { encoding = codes "zenoh/bytes" })
        ∷ (received sample ∷ (received sample ∷ [])))

echo_loop-reference_example :
    echo_loop catalog enc debug false true none default polls
    ≡ reference catalog enc debug false true (steps catalog none polls)
echo_loop-reference_example = echo_loop-reference catalog enc debug false none true default polls

abbrev bytes : Bytes
bytes = 0 ∷ (171 ∷ (255 ∷ []))

undump-hex_dump_example : undump (hex_dump bytes) ≡ some bytes
undump-hex_dump_example = undump-hex_dump bytes (omega arith, (omega arith, (omega arith, tt)))
