-- ===== src/Client/Delivery.antt =====
-- From MessageWriter on the broker's side to the channel of a caller.
use zbc_go.Common.{◌≤◌, ◌≡◌, Option, none, some, [], ◌∷◌, ◌++◌, append-nil, length}
use zbc_go.Wire.{Bytes, ok}
use zbc_go.Protocol.{FrameHeader, TransportHeader, RequestResponseHeader}
use zbc_go.Sbe.MessageHeader.{MessageHeader}
use zbc_go.Sbe.SubscribedEvent.{SubscribedEvent}
use zbc_go.Message.{Sbe, subscribed_event}
use zbc_go.Writer.{write}
use zbc_go.Writer.Laws.{SbeFits, sbe_layout, full_headers, full_message, message_layout}
use zbc_go.Reader.Buffer.{Connection}
use zbc_go.Reader.Parse.{parse_message}
use zbc_go.Reader.RoundTrip.{Sound, read_headers-layout}
use zbc_go.Reader.Messages.{Announced, document, parse_message-layout}
use zbc_go.Reader.Written.{read_headers-write}
use zbc_go.Request.Values.{Data}
use zbc_go.Request.{as_subscribed_event}
use zbc_go.Client.{Client, sending, receive, round_found, dispatch, event_round, new_reader_size}

module _ {X : Type 0} (unmarshal : Bytes → Option (Data X)) (f : FrameHeader) (t : TransportHeader)
    (m : MessageHeader) where
  -- A message whose parts are right, on the wire as `bs`, with the document `d`.
  pub record Sent (r : Option RequestResponseHeader) (sbe : Sbe) (d : Data X) (bs : Bytes)
      : Type 0 where
    pub sound : Sound f t r m sbe
    pub fits : SbeFits sbe
    pub announced : Announced m sbe
    pub known : unmarshal (document sbe) ≡ some d
    pub written : write (full_message f t r m sbe (some d)) [] ≡ ok (tt, bs)
    pub small : length bs ≤ 20000

  module _ (r : Option RequestResponseHeader) (sbe : Sbe) (d : Data X) (bs : Bytes)
      (sent : Sent r sbe d bs) where
    parsed :
        parse_message unmarshal (some (full_headers f t r m)) (sbe_layout sbe)
        ≡ ok (full_message f t r m sbe (some d))
    parsed = rw append-nil at (
        parse_message-layout unmarshal (full_headers f t r m) m [] sbe d sent.fits sent.announced
          sent.known)

    -- A round of the receiver, up to its tests.
    receive-parsed :
        (c : Client) (later : Connection)
        → c.connection ≡ bs ∷ later
        → receive unmarshal c
          ≡ dispatch r (ok (full_message f t r m sbe (some d))) (record c { connection = later })
    unfolding receive round_found new_reader_size
    receive-parsed c later arrives =
        let (n, few, read) =
          read_headers-write f t r m sbe (some d) bs 20000 later sent.sound sent.fits sent.written
            sent.small in
        rw (receive, arrives, read, parsed)

  -- A response with right parts (Sent), delivered in one segment of at most 20000 bytes, goes on the
  -- channel of the request id in its header, as the message that was written, with its document read,
  -- and the connection goes on behind the segment.
  pub receive-response :
      (r : RequestResponseHeader) (sbe : Sbe) (d : Data X) (bs : Bytes) (c : Client)
      (later : Connection)
      → Sent (some r) sbe d bs
      → c.connection ≡ bs ∷ later
      → receive unmarshal c ≡ (
        sending (c.transactions r.request_id) (full_message f t (some r) m sbe (some d)),
        record c { connection = later },
      )
  unfolding dispatch
  receive-response r sbe d bs c later sent arrives =
      receive-parsed (some r) sbe d bs sent c later arrives

  -- Bytes that arrive in one segment with a response with right parts (Sent), the next frame for one, are lost: the
  -- round is that of the response alone, and the client's connection goes on behind the segment, which
  -- fits the reader's buffer.
  pub receive-shared_segment :
      (r : RequestResponseHeader) (sbe : Sbe) (d : Data X) (bs behind : Bytes) (c : Client)
      (later : Connection)
      → Sent (some r) sbe d bs
      → length (message_layout f t (some r) m sbe ++ behind) ≤ 20000
      → c.connection ≡ (message_layout f t (some r) m sbe ++ behind) ∷ later
      → receive unmarshal c ≡ (
        sending (c.transactions r.request_id) (full_message f t (some r) m sbe (some d)),
        record c { connection = later },
      )
  unfolding receive round_found new_reader_size dispatch
  receive-shared_segment r sbe d bs behind c later sent small arrives =
      let read = read_headers-layout f t (some r) m sbe 20000 behind later sent.sound small in
      rw (receive, arrives, read, parsed (some r) sbe d bs sent)

  -- An event with right parts (Sent), delivered in one segment of at most 20000 bytes, goes on the
  -- channel of its subscriber key, as the message that was written, with its document read.
  pub receive-event :
      (s : SubscribedEvent) (d : Data X) (bs : Bytes) (c : Client) (later : Connection)
      → Sent none (subscribed_event s) d bs
      → c.connection ≡ bs ∷ later
      → receive unmarshal c ≡ (
        sending
            (c.subscriptions s.subscriber_key)
            (full_message f t none m (subscribed_event s) (some d)),
        record c { connection = later },
      )
  unfolding dispatch event_round as_subscribed_event
  receive-event s d bs c later sent arrives =
      receive-parsed none (subscribed_event s) d bs sent c later arrives
