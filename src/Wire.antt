-- ===== src/Wire.antt =====
-- What the codecs take from Go's standard library: errors as values, `io.Reader` and `io.Writer`
-- over byte slices, and `encoding/binary` in both byte orders.
pub mod Integers
pub mod Outcomes
pub mod Streams
pub mod Prefixes
pub mod Text
use zbc_go.Common.{ℤ, ℕ, zero, suc, ◌+◌, ◌*◌, ◌/◌, ◌%◌, ◌<◌, String, Bool, true, false}
use zbc_go.Common.{List, [], ◌∷◌, ◌++◌, reverse, ltb, ◌==◌, if◌then◌else◌, length, take, drop}

abbrev pub Bytes : Type 0
Bytes = List ℕ

abbrev pub IsByte : ℕ → Type 0
IsByte b = b < 256

pub data Error : Type 0 where
  -- io.EOF and io.ErrUnexpectedEOF
  eof unexpected_eof : Error
  -- the messages of the generated RangeCheck methods
  out_of_range : String → ℕ → ℕ → ℕ → Error
  int_out_of_range : String → ℤ → ℤ → ℤ → Error
  unknown_value : String → ℕ → Error
  invalid_utf8 : String → Error
  -- zbc/reader.go and zbc/client.go
  frame_header_read frame_header_decode protocol_id_not_found : Error
  timeout socket_write : Error
  -- a failure of the MessagePack library
  message_pack : Error
  -- cmd/main.go, and the failures of files, decoders and sockets, by their texts
  resource_not_found : Error
  failure : String → Error

-- A run that Go ends by a panic, or by log.Fatal.
pub data Fault : Type 0 where
  nil_pointer nil_map slice_bounds type_assertion fatal_exit channel_size : Fault

pub data Outcome {ℓ} (A : Type ℓ) : Type ℓ where
  ok : A → Outcome A
  err : Error → Outcome A
  panic : Fault → Outcome A

-- A computation on a stream: the bytes that a reader has left, or those that a writer has got.
abbrev pub Stream : Type 0 → Type 0
Stream A = Bytes → Outcome (A × Bytes)

infixl 5 ◌>>=◌ ◌>>◌
abbrev pub ◌>>=◌ : {A B : Type 0} → Stream A → (A → Stream B) → Stream B
◌>>=◌ m f s = elim (m s) [ ok (a, s') ↦ f a s' | err e ↦ err e | panic p ↦ panic p ]

abbrev pub ◌>>◌ : {B : Type 0} → Stream (Unit {0}) → Stream B → Stream B
m >> k = m >>= λ _. k

abbrev pub return : {A : Type 0} → A → Stream A
return a s = ok (a, s)

-- A check that neither reads nor writes.
abbrev pub check : Outcome (Unit {0}) → Stream (Unit {0})
check (ok _) s = ok (tt, s)
check (err e) s = err e
check (panic p) s = panic p

pub data ByteOrder : Type 0 where
  little_endian big_endian : ByteOrder

unfoldable pub le_bytes : ℕ → ℕ → Bytes
le_bytes zero v = []
le_bytes (suc w) v = (v % 256) ∷ le_bytes w (v / 256)

unfoldable pub le_value : Bytes → ℕ
le_value [] = 0
le_value (b ∷ bs) = b + 256 * le_value bs

-- An unsigned integer of `w` bytes.
unfoldable pub uint_bytes : ByteOrder → ℕ → ℕ → Bytes
unfolding le_bytes
uint_bytes little_endian w v = le_bytes w v
uint_bytes big_endian w v = reverse (le_bytes w v)

unfoldable pub uint_value : ByteOrder → Bytes → ℕ
unfolding le_value
uint_value little_endian bs = le_value bs
uint_value big_endian bs = le_value (reverse bs)

-- io.ReadFull: all `n` bytes, or an error that tells an empty stream from a short one.
unfoldable pub read_full : ℕ → Stream Bytes
read_full n s =
    if ltb (length s) n
    then err (if length s == 0 then eof else unexpected_eof)
    else ok (take n s, drop n s)

-- binary.Read into an unsigned integer of `w` bytes.
unfoldable pub read_uint : ByteOrder → ℕ → Stream ℕ
unfolding read_full uint_value
read_uint order w = do bs ← read_full w; return (uint_value order bs)

-- io.CopyN(ioutil.Discard, reader, n), whose error the callers drop.
unfoldable pub discard : ℕ → Stream (Unit {0})
discard n s = ok (tt, drop n s)

-- binary.Write to a bytes.Buffer, which takes all that it is given.
unfoldable pub write_bytes : Bytes → Stream (Unit {0})
write_bytes bs s = ok (tt, s ++ bs)

unfoldable pub write_uint : ByteOrder → ℕ → ℕ → Stream (Unit {0})
unfolding write_bytes uint_bytes
write_uint order w v = write_bytes (uint_bytes order w v)

-- A computation on the bytes of a slice, in the middle of one on a stream.
unfoldable pub parse : {A : Type 0} → Bytes → Stream A → Stream A
parse bs m s = elim (m bs) [ ok (a, _) ↦ ok (a, s) | err e ↦ err e | panic p ↦ panic p ]

-- binary.Read into a struct of `n` bytes: it takes them all before it looks at a field.
unfoldable pub read_struct : {A : Type 0} → ℕ → Stream A → Stream A
unfolding read_full parse
read_struct n m = do bs ← read_full n; parse bs m
