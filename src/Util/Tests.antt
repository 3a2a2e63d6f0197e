-- ===== src/Util/Tests.antt =====
-- A number as it is printed.
use jake.Common.{◌≤◌, length, ℕ, ◌≡◌, List, ◌∷◌, arith}
use jake.Util.{printnum}
use jake.Util.Print.{AllHex, hex_value, printnum-hex_value}

printnum-hex_value_example :
    (digits : List ℕ) × (printnum 0x80006 ≡ b'0' ∷ b'x' ∷ digits)
    × AllHex digits
    × (2 ≤ length digits)
    × (hex_value 0 digits ≡ 0x80006)
printnum-hex_value_example = printnum-hex_value 0x80006 (omega arith)
