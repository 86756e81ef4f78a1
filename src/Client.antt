-- ===== src/Client.antt =====
-- zbc/client.go: the client's tables, a round of the receiver, and what Responder and TaskConsumer
-- do to the client. A goroutine's wait on a channel is in Client/Steps.
pub mod Steps
pub mod Messages
pub mod Matching
pub mod Blocked
pub mod Delivery
pub mod Late
pub mod Unknown
pub mod Subscribed
pub mod Answered
pub mod Events
pub mod Calls
pub mod Promise
pub mod Called
pub mod Places
pub mod Full
pub mod Channels
use zbc_go.Common.{
  ℤ, pos, negsuc, ℕ, ◌==◌, if◌then◌else◌, Bool, not, Option, none, some, [], length,
}
use zbc_go.Wire.{
  Bytes, Error, Outcome, ok, err, panic, Fault, nil_pointer, type_assertion, socket_write,
  channel_size,
}
use zbc_go.Wire.Outcomes.{◌>>=◌, deref}
use zbc_go.Protocol.{RequestResponseHeader}
use zbc_go.Message.{Headers, Message}
use zbc_go.Writer.{write}
use zbc_go.Reader.Buffer.{Connection, BufReader}
use zbc_go.Reader.Headers.{Found, read_headers}
use zbc_go.Reader.Parse.{parse_message}
use zbc_go.Request.Values.{Data, Value, uint64_value, get_value}
use zbc_go.Request.{TaskSubscription, as_subscribed_event}

-- A channel is named by what it was made for and a serial number: the unbuffered one of a request,
-- or that of a subscription with its capacity. A missing key of a table reads as the nil channel.
pub data Channel : Type 0 where
  nil_channel : Channel
  response_channel : ℕ → ℕ → Channel
  subscription_channel : ℕ → ℕ → Channel

-- A Go map from uint64 to channels.
abbrev pub Table : Type 0
Table = ℕ → Channel

unfoldable pub put : ℕ → Channel → Table → Table
put k ch table k' = if k' == k then ch else table k'

-- delete(table, k)
unfoldable pub delete : ℕ → Table → Table
unfolding put
delete k table = put k nil_channel table

pub record Client : Type 0 where
  pub connection : Connection
  pub transactions : Table
  pub subscriptions : Table

-- bufio.NewReaderSize
unfoldable pub new_reader_size : Connection → ℕ → BufReader
new_reader_size c size = record { size = size; buffered = []; connection = c }

-- NewClient, once the connection is dialled.
unfoldable pub new_client : Connection → Client
new_client conn = record {
  connection = conn;
  transactions = λ _. nil_channel;
  subscriptions = λ _. nil_channel;
}

unfoldable pub forget : ℕ → Client → Client
unfolding delete
forget id c = record c { transactions = delete id c.transactions }

-- Where the receiver stands after a round: at the next round, before a channel that it sends on, or
-- gone with a panic.
pub data Receiver (D : Type 0) : Type 0 where
  idle : Receiver D
  sending : Channel → Message D → Receiver D
  crashed : Fault → Receiver D

unfoldable pub event_round : {X : Type 0} → Message (Data X) → Client → Receiver (Data X)
unfolding as_subscribed_event
event_round m c = elim (as_subscribed_event m.sbe_message) [
  | ok s ↦ sending (c.subscriptions s.subscriber_key) m
  | err _ ↦ idle
  | panic p ↦ crashed p
]

-- The tests of a round, on the headers and on what ParseMessage has returned.
unfoldable pub dispatch :
    {X : Type 0}
    → Option RequestResponseHeader
    → Outcome (Message (Data X))
    → Client
    → Receiver (Data X) × Client
unfolding event_round forget
dispatch (some r) (err _) c = (idle, forget r.request_id c)
dispatch (some r) (ok m) c = (sending (c.transactions r.request_id) m, c)
dispatch none (err _) c = (idle, c)
dispatch none (ok m) c = (event_round m c, c)
dispatch (some r) (panic p) c = (crashed p, c)
dispatch none (panic p) c = (crashed p, c)

module _ {X : Type 0} (unmarshal : Bytes → Option (Data X)) where
  unfoldable pub round_found : Outcome Found → Client → Receiver (Data X) × Client
  unfolding dispatch
  round_found (err _) c = (idle, c)
  round_found (panic p) c = (crashed p, c)
  round_found (ok none) c = (crashed nil_pointer, c)
  round_found (ok (some (h, tail))) c =
      dispatch h.request_response_header (parse_message unmarshal (some h) tail) c

  -- One round of receiver. Its reader is a new one, and what that has buffered is lost.
  unfoldable pub receive : Client → Receiver (Data X) × Client
  unfolding round_found new_reader_size
  receive c =
      let (found, r) = read_headers (new_reader_size c.connection 20000) in
      round_found found (record c { connection = r.connection })

-- make(chan *Message, size), of which an int32 is the size: the capacity.
unfoldable pub make_channel : ℤ → Outcome ℕ
make_channel (pos n) = ok n
make_channel (negsuc n) = panic channel_size

module _ {X : Type 0} where
  -- message.Headers.RequestResponseHeader.RequestID; a constructor's failure is the nil message.
  unfoldable pub request_id_of : Option (Message (Data X)) → Outcome ℕ
  request_id_of message = do
    m ← deref message
    h ← deref m.headers
    r ← deref h.request_response_header
    ok r.request_id

  -- sender, where conn.Write is a function of the bytes that it is given.
  unfoldable pub sender : (Bytes → ℕ × Option Error) → Message (Data X) → Outcome (Unit {0})
  sender conn_write message = elim (write message []) [
    | ok (_, bs) ↦
        let (n, e) = conn_write bs in
        elim e [ some x ↦ err x | none ↦ if not (n == length bs) then err socket_write else ok tt ]
    | err x ↦ err x
    | panic p ↦ panic p
  ]

  -- The value of (*response.Data)["subscriberKey"].(uint64)
  unfoldable pub subscriber_key_of : Message (Data X) → Outcome ℕ
  unfolding get_value
  subscriber_key_of response = do
    d ← deref response.payload
    elim (get_value "subscriberKey" d) [ some (uint64_value k) ↦ ok k | _ ↦ panic type_assertion ]

  -- The end of TaskConsumer, with its channel.
  unfoldable pub open_subscription : Message (Data X) → Channel → Client → Outcome Client
  unfolding subscriber_key_of put
  open_subscription response ch c = do
    k ← subscriber_key_of response
    ok (record c { subscriptions = put k ch c.subscriptions })

  -- TaskConsumer but for its call of Responder: the channel for ts.Credits events, whose serial number
  -- is `serial`, under the subscriber key of the response.
  unfoldable pub subscribe : ℕ → TaskSubscription → Message (Data X) → Client → Outcome Client
  unfolding make_channel open_subscription
  subscribe serial ts response c = do
    capacity ← make_channel ts.credits
    open_subscription response (subscription_channel serial capacity) c
