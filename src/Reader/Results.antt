-- ===== src/Reader/Results.antt =====
-- What ReadHeaders returns, whatever a connection delivers.
use zbc_go.Common.{
  ℕ, ◌+◌, ◌-◌, ◌≤◌, ◌≡◌, ◌≢◌, refl, ap, arith, Bool, true, false, Bool-cases, inl, inr,
}
use zbc_go.Common.{
  none, some, length, take, drop, length-take, length-drop, leb, le→ltb, ◌==◌, if◌then◌else◌,
}
use zbc_go.Wire.{Bytes, Outcome, ok, err, panic, little_endian}
use zbc_go.Wire.Outcomes.{◌>>=◌, decode_from}
use zbc_go.Wire.{read_uint, read_full, slice_bounds, uint_value, frame_header_read}
use zbc_go.Wire.Streams.{panic-ne-ok}
use zbc_go.Protocol.{
  FrameHeader, decode_request_response_header, request_response, full_duplex_single_message,
}
use zbc_go.Message.{
  Headers, set_transport_header, set_frame_header, no_headers, set_request_response_header,
  sbe_message_header_size,
}
use zbc_go.Reader.Buffer.{Answer, BufReader, slice, slice_from}
use zbc_go.Reader.Headers.{Found, read_next, read_headers, read_frame, read_message}
use zbc_go.Reader.Headers.{read_message_headers, read_request_response_part, read_sbe_part}
use zbc_go.Reader.Headers.{
  read_request_response_header, read_frame_header, read_sbe_message_header, read_transport_header,
}

-- Not the answer (nil, nil, nil).
abbrev NotNil : Outcome Found → Type 0
NotNil x = x ≢ ok none

ok_some-NotNil : (found : Headers × Bytes) → NotNil (ok (some found))
ok_some-NotNil found h = ground arith

>>=-NotNil :
    {A : Type 0} (m : Outcome A) (f : A → Outcome Found)
    → ((a : A) → m ≡ ok a → NotNil (f a))
    → NotNil (m >>= f)
>>=-NotNil (ok a) f each h = each a refl h
>>=-NotNil (err e) f each h = cc
>>=-NotNil (panic p) f each h = cc

if-NotNil : (b : Bool) (x y : Outcome Found) → NotNil x → NotNil y → NotNil (if b then x else y)
if-NotNil true x y hx hy = hx
if-NotNil false x y hx hy = hy

read_sbe_part-NotNil : (h : Headers) (i : ℕ) (bs : Bytes) → NotNil (read_sbe_part h i bs)
unfolding read_sbe_part
read_sbe_part-NotNil h i bs = >>=-NotNil (slice i (i + sbe_message_header_size) bs) _ λ bytes _.
    >>=-NotNil (read_sbe_message_header bytes) _
      λ m _. >>=-NotNil (slice_from (i + 8) bs) _ λ body _. ok_some-NotNil _

leb→le : (a b : ℕ) → leb a b ≡ true → a ≤ b
leb→le a b h = ground arith

length-slice_checked :
    (lo hi : ℕ) (bs got : Bytes)
    → lo ≤ hi
    → hi ≤ length bs
    → ◌≡◌ {A = Outcome Bytes} (ok (take (hi - lo) (drop lo bs))) (ok got)
    → length got ≡ hi - lo
length-slice_checked lo hi bs got order enough h =
    let same : take (hi - lo) (drop lo bs) ≡ got = ground arith in
    omega (arith, ap length same, length-take (hi - lo) (drop lo bs), length-drop lo bs)

length-slice :
    (lo hi : ℕ) (bs got : Bytes) → lo ≤ hi → slice lo hi bs ≡ ok got → length got ≡ hi - lo
unfolding slice
length-slice lo hi bs got order h = elim (Bool-cases (leb hi (length bs))) [
  | inl e ↦ length-slice_checked lo hi bs got order (leb→le hi (length bs) e) (rw e at h)
  | inr e ↦ panic-ne-ok slice_bounds (rw e at h)
]

read_request_response_header-full :
    (bs : Bytes)
    → length bs ≡ 8
    → read_request_response_header bs
      ≡ ok (record { request_id = uint_value little_endian (take 8 bs) })
unfolding read_request_response_header decode_from decode_request_response_header read_uint
    read_full
read_request_response_header-full bs size =
    rw
      (
        read_request_response_header,
        decode_from,
        decode_request_response_header,
        read_uint,
        read_full,
        le→ltb (length bs) 8 (omega arith),
      )
      refl

read_request_response_part-NotNil :
    (h : Headers) (bs : Bytes) → NotNil (read_request_response_part h bs)
unfolding read_request_response_part
read_request_response_part-NotNil h bs = >>=-NotNil (slice 2 10 bs) _ λ got sliced.
    rw (read_request_response_header-full got (length-slice 2 10 bs got (omega arith) sliced)) (
      read_sbe_part-NotNil
        (set_request_response_header
          (some (record { request_id = uint_value little_endian (take 8 got) })) h)
        10 bs)

read_message_headers-NotNil : (f : FrameHeader) (bs : Bytes) → NotNil (read_message_headers f bs)
unfolding read_message_headers
read_message_headers-NotNil f bs = >>=-NotNil (slice 0 2 bs) _ λ front _.
    >>=-NotNil (read_transport_header front) _ λ t _.
      let header = set_transport_header (some t) (set_frame_header (some f) no_headers) in
      if-NotNil (t.protocol_id == request_response) _ _
        (read_request_response_part-NotNil header bs)
        (if-NotNil (t.protocol_id == full_duplex_single_message) _ _
          (read_sbe_part-NotNil (set_request_response_header none header) 2 bs)
          (read_sbe_part-NotNil header 2 bs))

module _ (f : FrameHeader) where
  after_next-NotNil :
      (answer : Answer BufReader)
      → NotNil
          (elim answer.0.1 as (λ _. Outcome Found × BufReader) [
            | some x ↦ (err x, answer.1)
            | none ↦ (read_message_headers f answer.0.0, answer.1)
          ]).0
  after_next-NotNil ((bs, none), r) = read_message_headers-NotNil f bs
  after_next-NotNil ((bs, some x), r) = λ h. cc

  read_message-NotNil : (r : BufReader) → NotNil (read_message f r).0
  unfolding read_message
  read_message-NotNil r = after_next-NotNil (read_next f.frame_length r)

after_frame-NotNil :
    (x : Outcome FrameHeader) (r : BufReader)
    → NotNil
        (elim x as (λ _. Outcome Found × BufReader) [
          | ok frame ↦ read_message frame r
          | err e ↦ (err e, r)
          | panic p ↦ (panic p, r)
        ]).0
after_frame-NotNil (ok frame) r = read_message-NotNil frame r
after_frame-NotNil (err e) r = λ h. cc
after_frame-NotNil (panic p) r = λ h. cc

read_frame-NotNil : (bs : Bytes) (r : BufReader) → NotNil (read_frame bs r).0
unfolding read_frame
read_frame-NotNil bs r = after_frame-NotNil (read_frame_header bs) r

after_first-NotNil :
    (answer : Answer BufReader)
    → NotNil
        (elim answer.0.1 as (λ _. Outcome Found × BufReader) [
          | some _ ↦ (err frame_header_read, answer.1)
          | none ↦ read_frame answer.0.0 answer.1
        ]).0
after_first-NotNil ((bs, none), r) = read_frame-NotNil bs r
after_first-NotNil ((bs, some x), r) = λ h. cc

-- Whatever the connection delivers, ReadHeaders does not return nil headers without an error, though
-- its case RequestResponse returns the outer error, which is nil there.
pub read_headers-found : (r : BufReader) → (read_headers r).0 ≢ ok none
unfolding read_headers
read_headers-found r = after_first-NotNil (read_next 12 r)
