-- ===== src/Wire/Integers.antt =====
-- Unsigned integers as bytes, in both byte orders.
use zbc_go.Common.{ℕ, zero, suc, ◌+◌, ◌*◌, ◌/◌, ◌%◌, ◌^◌, ◌<◌, ◌≡◌, refl, ap, ◌∙◌, arith}
use zbc_go.Common.{[], ◌∷◌, reverse, length, All}
use zbc_go.Common.{length-reverse, All-reverse}
use zbc_go.Wire.{Bytes, IsByte}
use zbc_go.Wire.{ByteOrder, little_endian, big_endian, le_bytes, le_value, uint_bytes, uint_value}
use mathlib.Core.List.{reverse-reverse}
use native.Mathlib.Nat.{pow-suc}

pub length-le_bytes : (w v : ℕ) → length (le_bytes w v) ≡ w
unfolding le_bytes
length-le_bytes zero v = refl
length-le_bytes (suc w) v = ap suc (length-le_bytes w (v / 256))

pub le_bytes-IsByte : (w v : ℕ) → All IsByte (le_bytes w v)
unfolding le_bytes
le_bytes-IsByte zero v = tt
le_bytes-IsByte (suc w) v = (omega arith, le_bytes-IsByte w (v / 256))

le_value-le_bytes : (w v : ℕ) → v < 256 ^ w → le_value (le_bytes w v) ≡ v
unfolding le_bytes le_value
le_value-le_bytes zero v h = omega arith
le_value-le_bytes (suc w) v h =
    omega (arith, le_value-le_bytes w (v / 256) (omega (arith, pow-suc 256 w)))

le_value-lt : (bs : Bytes) → All IsByte bs → le_value bs < 256 ^ length bs
unfolding le_value
le_value-lt [] h = omega arith
le_value-lt (b ∷ bs) h = omega (arith, pow-suc 256 (length bs), le_value-lt bs h.1, h.0)

le_bytes-le_value : (bs : Bytes) → All IsByte bs → le_bytes (length bs) (le_value bs) ≡ bs
unfolding le_bytes le_value
le_bytes-le_value [] h = refl
le_bytes-le_value (b ∷ bs) h =
    let low : (b + 256 * le_value bs) % 256 ≡ b = omega (arith, h.0) in
    let high : (b + 256 * le_value bs) / 256 ≡ le_value bs = omega (arith, h.0) in
    rw (low, high, le_bytes-le_value bs h.1)

pub length-uint_bytes : (order : ByteOrder) (w v : ℕ) → length (uint_bytes order w v) ≡ w
unfolding uint_bytes
length-uint_bytes little_endian w v = length-le_bytes w v
length-uint_bytes big_endian w v = length-reverse (le_bytes w v) ∙ length-le_bytes w v

pub uint_bytes-IsByte : (order : ByteOrder) (w v : ℕ) → All IsByte (uint_bytes order w v)
unfolding uint_bytes
uint_bytes-IsByte little_endian w v = le_bytes-IsByte w v
uint_bytes-IsByte big_endian w v = All-reverse IsByte (le_bytes w v) (le_bytes-IsByte w v)

pub uint_value-uint_bytes :
    (order : ByteOrder) (w v : ℕ) → v < 256 ^ w → uint_value order (uint_bytes order w v) ≡ v
unfolding uint_value uint_bytes
uint_value-uint_bytes little_endian w v h = le_value-le_bytes w v h
uint_value-uint_bytes big_endian w v h = rw reverse-reverse (le_value-le_bytes w v h)

pub uint_value-lt :
    (order : ByteOrder) (bs : Bytes) → All IsByte bs → uint_value order bs < 256 ^ length bs
unfolding uint_value
uint_value-lt little_endian bs h = le_value-lt bs h
uint_value-lt big_endian bs h =
    rw length-reverse at (le_value-lt (reverse bs) (All-reverse IsByte bs h))

pub uint_bytes-uint_value :
    (order : ByteOrder) (bs : Bytes)
    → All IsByte bs
    → uint_bytes order (length bs) (uint_value order bs) ≡ bs
unfolding uint_value uint_bytes
uint_bytes-uint_value little_endian bs h = le_bytes-le_value bs h
uint_bytes-uint_value big_endian bs h =
    ap reverse (rw length-reverse at (le_bytes-le_value (reverse bs) (All-reverse IsByte bs h)))
    ∙ reverse-reverse bs
