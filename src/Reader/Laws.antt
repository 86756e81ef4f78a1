-- ===== src/Reader/Laws.antt =====
-- Slices, buffered reads and decoders on input that is put together from its parts.
use zbc_go.Common.{eq→==, ne→==, ℕ, ◌+◌, ◌-◌, ◌≤◌, ◌<◌, ◌≡◌, ◌≢◌, ◌∙◌, arith, true, false}
use zbc_go.Common.{none, [], ◌∷◌, ◌++◌}
use zbc_go.Common.{
  length, length-append, take, drop, take-append, drop-append, take_all, drop_all, leb, ◌==◌,
}
use zbc_go.Wire.{Bytes, ok, panic, Stream, slice_bounds}
use zbc_go.Wire.Streams.{Reads}
use zbc_go.Wire.Outcomes.{decode_from}
use zbc_go.Reader.Buffer.{Connection, BufReader, buf_read}
use zbc_go.Reader.Buffer.{slice, slice_from}
use zbc_go.Reader.Headers.{read_next}

pub decode_from-Reads :
    {A : Type 0} {m : Stream A} {bs : Bytes} {a : A} (rest : Bytes)
    → Reads m bs a
    → decode_from m (bs ++ rest) ≡ ok a
unfolding decode_from
decode_from-Reads rest h = rw (h.apply rest, decode_from)

le→leb : (a b : ℕ) → a ≤ b → leb a b ≡ true
le→leb a b h = ground arith

lt→leb : (a b : ℕ) → b < a → leb a b ≡ false
lt→leb a b h = ground arith

pub slice-append :
    (xs ys zs : Bytes) (lo hi : ℕ)
    → length xs ≡ lo
    → lo + length ys ≡ hi
    → slice lo hi (xs ++ (ys ++ zs)) ≡ ok ys
unfolding slice
slice-append xs ys zs lo hi front back =
    let size : hi - lo ≡ length ys = omega arith in
    let enough : hi ≤ length (xs ++ (ys ++ zs)) =
      omega (arith, length-append xs (ys ++ zs), length-append ys zs) in
    rw (le→leb hi (length (xs ++ (ys ++ zs))) enough, size, ← front, drop-append, take-append)

pub slice_from-append : (xs ys : Bytes) (lo : ℕ) → length xs ≡ lo → slice_from lo (xs ++ ys) ≡ ok ys
unfolding slice_from
slice_from-append xs ys lo front =
    let enough : lo ≤ length (xs ++ ys) = omega (arith, length-append xs ys) in
    rw (le→leb lo (length (xs ++ ys)) enough, ← front, drop-append)

pub slice_short : (lo hi : ℕ) (bs : Bytes) → length bs < hi → slice lo hi bs ≡ panic slice_bounds
unfolding slice
slice_short lo hi bs h = rw (lt→leb hi (length bs) h)

pos→==_zero : (n : ℕ) → 0 < n → (n == 0) ≡ false
pos→==_zero n h = ground arith

module _ (n : ℕ) (r r' : BufReader) (xs : Bytes) where
  read_next_full :
      buf_read n r ≡ ((xs, none), r') → length xs ≡ n → read_next n r ≡ ((xs, none), r')
  unfolding read_next
  read_next_full e size = rw (e, eq→== (length xs) n size)

  -- After a short read readNext returns neither the bytes nor an error.
  read_next_short :
      buf_read n r ≡ ((xs, none), r') → length xs ≢ n → read_next n r ≡ (([], none), r')
  unfolding read_next
  read_next_short e size = rw (e, ne→== (length xs) n size)

abbrev pub reader : ℕ → Bytes → Connection → BufReader
reader size bs c = record { size = size; buffered = bs; connection = c }

module _ (size : ℕ) (later : Connection) where
  -- A read from a buffer that holds something gives what is there, and at most `n` bytes.
  buf_read_held :
      (n : ℕ) (bs : Bytes)
      → 0 < n
      → 0 < length bs
      → buf_read n (reader size bs later) ≡ ((take n bs, none), reader size (drop n bs) later)
  unfolding buf_read
  buf_read_held n [] h some_held = absurd (omega arith)
  buf_read_held n (b ∷ bs) h some_held = rw (pos→==_zero n h)

  -- A read with an empty buffer fetches one segment, if that fits the buffer.
  buf_read_fetched :
      (n : ℕ) (bs : Bytes)
      → 0 < n
      → n < size
      → length bs ≤ size
      → buf_read n (reader size [] (bs ∷ later))
        ≡ ((take n bs, none), reader size (drop n bs) later)
  unfolding buf_read
  buf_read_fetched n bs h small fits =
      rw (pos→==_zero n h, lt→leb size n small, le→leb (length bs) size fits, take_all size bs fits)

  -- A full read from the buffer.
  pub read_next-buffered :
      (xs ys : Bytes) (n : ℕ)
      → length xs ≡ n
      → 0 < n
      → read_next n (reader size (xs ++ ys) later) ≡ ((xs, none), reader size ys later)
  read_next-buffered xs ys n e h =
      read_next_full n _ _ xs
        (buf_read_held n (xs ++ ys) h (omega (arith, length-append xs ys))
          ∙ rw (← e, take-append, drop-append))
        e

  -- A full read that fetches one segment.
  pub read_next-fetched :
      (xs ys : Bytes) (n : ℕ)
      → length xs ≡ n
      → 0 < n
      → n < size
      → length (xs ++ ys) ≤ size
      → read_next n (reader size [] ((xs ++ ys) ∷ later)) ≡ ((xs, none), reader size ys later)
  read_next-fetched xs ys n e h small fits =
      read_next_full n _ _ xs
        (buf_read_fetched n (xs ++ ys) h small fits ∙ rw (← e, take-append, drop-append)) e

  -- A read of more than the buffer holds empties it and returns nothing, without an error.
  pub read_next-short :
      (bs : Bytes) (n : ℕ)
      → 0 < length bs
      → length bs < n
      → read_next n (reader size bs later) ≡ (([], none), reader size [] later)
  read_next-short bs n h short =
      read_next_short n _ _ bs
        (buf_read_held n bs (omega arith) h
          ∙ rw (take_all n bs (omega arith), drop_all n bs (omega arith)))
        (omega arith)
