-- ===== src/Reader/Buffer.antt =====
-- What the reader takes from Go's library: a connection, and bufio.Reader over it.
use zbc_go.Common.{ℕ, ◌-◌, Option, none, some, List, [], ◌∷◌}
use zbc_go.Common.{leb, ◌==◌, if◌then◌else◌, length, take, drop}
use zbc_go.Wire.{Bytes, Error, eof, Outcome, ok, panic, slice_bounds}

-- The segments that a connection still delivers; after the last one it is closed.
abbrev pub Connection : Type 0
Connection = List Bytes

-- A call returns bytes and an error, and leaves a state.
abbrev pub Answer : Type 0 → Type 0
Answer S = (Bytes × Option Error) × S

-- conn.Read into a slice of `n` bytes: at most one segment.
unfoldable pub conn_read : ℕ → Connection → Answer Connection
conn_read n [] = (([], some eof), [])
conn_read n (segment ∷ later) =
    ((take n segment, none), if leb (length segment) n then later else drop n segment ∷ later)

-- bufio.Reader: what it has buffered of the connection, and the size of its buffer.
pub record BufReader : Type 0 where
  pub size : ℕ
  pub buffered : Bytes
  pub connection : Connection

-- Read with an empty buffer: past it for a large slice, and else through one read into it.
unfoldable pub read_through : ℕ → BufReader → Answer BufReader
unfolding conn_read
read_through n r =
    if leb r.size n
    then (let (got, later) = conn_read n r.connection in (got, record r { connection = later }))
    else (let ((bs, e), later) = conn_read r.size r.connection in
        ((take n bs, e), record r { buffered = drop n bs; connection = later }))

unfoldable pub read_buffered : ℕ → Bytes → BufReader → Answer BufReader
unfolding read_through
read_buffered n [] r = read_through n r
read_buffered n (b ∷ bs) r = ((take n (b ∷ bs), none), record r { buffered = drop n (b ∷ bs) })

-- (*bufio.Reader).Read into a slice of `n` bytes.
unfoldable pub buf_read : ℕ → BufReader → Answer BufReader
unfolding read_buffered
buf_read n r = if n == 0 then (([], none), r) else read_buffered n r.buffered r

-- bs[lo:hi] and bs[lo:], for a slice whose capacity is its length.
unfoldable pub slice : ℕ → ℕ → Bytes → Outcome Bytes
slice lo hi bs = if leb hi (length bs) then ok (take (hi - lo) (drop lo bs)) else panic slice_bounds

unfoldable pub slice_from : ℕ → Bytes → Outcome Bytes
slice_from lo bs = if leb lo (length bs) then ok (drop lo bs) else panic slice_bounds
