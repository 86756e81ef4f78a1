-- ===== src/Sbe/Utf8.antt =====
-- unicode/utf8's `Valid`, as a machine that reads one byte at a time.
use zbc_go.Common.{ℕ, zero, suc, Bool, true, false, ◌&&◌, [], ◌∷◌, ltb, leb, ◌==◌, if◌then◌else◌}
use zbc_go.Wire.{Bytes}

-- Between two characters; or inside one, where the next byte must lie between `lo` and `hi` and
-- `n` continuation bytes follow it.
pub data State : Type 0 where
  between : State
  inside : ℕ → ℕ → ℕ → State
  broken : State

lead : ℕ → State
lead b =
    if ltb b 0x80
    then between
    else if ltb b 0xc2
    then broken
    else if ltb b 0xe0
    then inside 0x80 0xbf 0
    else if b == 0xe0
    then inside 0xa0 0xbf 1
    else if b == 0xed
    then inside 0x80 0x9f 1
    else if ltb b 0xf0
    then inside 0x80 0xbf 1
    else if b == 0xf0
    then inside 0x90 0xbf 2
    else if ltb b 0xf4
    then inside 0x80 0xbf 2
    else if b == 0xf4
    then inside 0x80 0x8f 2
    else broken

after : ℕ → State
after zero = between
after (suc n) = inside 0x80 0xbf n

step : State → ℕ → State
unfolding lead after
step between b = lead b
step (inside lo hi n) b = if leb lo b && leb b hi then after n else broken
step broken b = broken

run : State → Bytes → Bool
unfolding step
run between [] = true
run (inside _ _ _) [] = false
run broken [] = false
run s (b ∷ bs) = run (step s b) bs

-- utf8.Valid
unfoldable pub valid : Bytes → Bool
unfolding run
valid bs = run between bs
