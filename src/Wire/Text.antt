-- ===== src/Wire/Text.antt =====
-- []uint8(s) for a string s: its code points in UTF-8.
use Prim.Native.Char.{code}
use Prim.Native.String as Native
use zbc_go.Common.{ℕ, ◌+◌, ◌/◌, ◌%◌, String, [], ◌∷◌, ◌++◌, ltb, if◌then◌else◌}
use zbc_go.Wire.{Bytes}

abbrev tail_byte : ℕ → ℕ
tail_byte c = 0x80 + c % 64

unfoldable char_bytes : ℕ → Bytes
char_bytes c =
    if ltb c 0x80
    then c ∷ []
    else if ltb c 0x800
    then (0xc0 + c / 64) ∷ tail_byte c ∷ []
    else if ltb c 0x1_0000
    then (0xe0 + c / 4096) ∷ tail_byte (c / 64) ∷ tail_byte c ∷ []
    else (0xf0 + c / 262144) ∷ tail_byte (c / 4096) ∷ tail_byte (c / 64) ∷ tail_byte c ∷ []

unfoldable pub string_bytes : String → Bytes
unfolding char_bytes
string_bytes Native.[] = []
string_bytes (Native.◌∷◌ c s) = char_bytes (code c) ++ string_bytes s
