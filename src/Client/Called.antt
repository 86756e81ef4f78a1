-- ===== src/Client/Called.antt =====
-- A command through the whole client: the constructor of its message, the writer, the connection, the
-- receiver, and Responder.
use zbc_go.Common.{
  ℕ, ◌^◌, ◌<◌, ◌≡◌, refl, ap, ◌∙◌, eq→==, Option, none, some, [], ◌∷◌, length, not, ◌==◌,
  if◌then◌else◌,
}
use zbc_go.Wire.{Bytes, Error, ok, err, socket_write}
use zbc_go.Protocol.{
  FrameHeader, TransportHeader, RequestResponseHeader, new_request_response_header,
}
use zbc_go.Sbe.MessageHeader.{MessageHeader}
use zbc_go.Sbe.ExecuteCommandRequest as CommandRequest
use zbc_go.Sbe.ExecuteCommandRequest.{ExecuteCommandRequest}
use zbc_go.Sbe.ExecuteCommandRequest.Laws as CommandRequestLaws
use zbc_go.Message.{Message, Sbe, command_request}
use zbc_go.Writer.{write}
use zbc_go.Writer.Laws.{full_message, write-layout}
use zbc_go.Reader.Buffer.{Connection}
use zbc_go.Request.Values.{Data}
use zbc_go.Request.{Command, new_command_request_message, sbe_header}
use zbc_go.Request.Laws.{
  request_message, request_frame, request_transport, request_pair, new_command_request_message-eq,
}
use zbc_go.Client.{idle, nil_channel, response_channel, request_id_of, sender}
use zbc_go.Client.Steps.{System, call, waiting, returned, Steps, ◌then◌, responder, sent}
use zbc_go.Client.Steps.{register, set_calls}
use zbc_go.Client.Subscribed.{put-eq}
use zbc_go.Client.Delivery.{Sent}
use zbc_go.Client.Answered.{responder-answered}

-- By steps from `s` to `u` a call with the message `q` returns `answer`, its entry is gone, and the
-- receiver is at its next round, with `later` to read.
abbrev pub Returns :
    {X : Type 0}
    → (Bytes → Option (Data X))
    → ℕ
    → Message (Data X)
    → Message (Data X)
    → Connection
    → System X
    → System X
    → Type 0
Returns unmarshal id q answer later s u =
    Steps unmarshal s u
    × (u.calls ≡ call q id (returned (ok answer)) ∷ s.calls)
    × (u.client.transactions id ≡ nil_channel)
    × (u.client.connection ≡ later)
    × (u.receiver ≡ idle)

module _ (conn_write : Bytes → ℕ × Option Error)
    (takes_all : (bs : Bytes) → conn_write bs ≡ (length bs, none)) where
  sender-write :
      {D : Type 0} (q : Message (Data D)) (bs : Bytes)
      → write q [] ≡ ok (tt, bs)
      → sender conn_write q ≡ ok tt
  unfolding sender
  sender-write q bs written =
      let all : (if not (length bs == length bs) then err socket_write else ok tt) ≡ ok tt =
        rw (eq→== (length bs) (length bs) refl) in
      rw (sender, written)
        (ap
            (λ result.
              let (n, e) = result in
              elim e [
                | some x ↦ err x
                | none ↦ if not (n == length bs) then err socket_write else ok tt
              ])
            (takes_all bs)
          ∙ all)

  sender-request :
      (X : Type 0) (drawn size : ℕ) (e : ExecuteCommandRequest)
      → CommandRequestLaws.Fits e
      → sender {X = X} conn_write
          (request_message drawn CommandRequest.message_spec size (command_request e))
        ≡ ok tt
  sender-request X drawn size e fits =
      let (n, written, _, _) =
        write-layout {D = Data X} (request_frame size) request_transport (request_pair drawn)
          (sbe_header CommandRequest.message_spec) (command_request e) none fits in
      sender-write _ _ written

  module _ {X : Type 0} (unmarshal : Bytes → Option (Data X)) (marshal : Command X → Option Bytes)
      (f : FrameHeader) (t : TransportHeader) (m : MessageHeader) (r : RequestResponseHeader)
      (sbe : Sbe) (d : Data X) (bs : Bytes) (right : Sent unmarshal f t m (some r) sbe d bs) where
    abbrev answer : Message (Data X)
    answer = full_message f t (some r) m sbe (some d)

    call-answered :
        (s : System X) (q : Message (Data X)) (later : Connection)
        → request_id_of (some q) ≡ ok r.request_id
        → sender conn_write q ≡ ok tt
        → s.receiver ≡ idle
        → s.client.connection ≡ bs ∷ later
        → (u : System X) × Returns unmarshal r.request_id q answer later s u
    unfolding register
    call-answered s q later known done at_idle arrives =
        let id = r.request_id in
        let s1 = register q id s in
        let s2 = set_calls (call q id (waiting (s1.client.transactions id)) ∷ s.calls) s1 in
        let entry = put-eq id (response_channel id s.serial) s.client.transactions in
        let (u, steps, calls, gone, connection, receiver) =
          responder-answered unmarshal f t m r sbe d bs right s2 q s.serial [] s.calls later at_idle
            arrives entry (ap (λ ch. call q id (waiting ch) ∷ s.calls) entry) in
        (
          u,
          (
            responder q id known then sent conn_write q id [] s.calls refl done then steps,
            calls,
            gone,
            connection,
            receiver,
          ),
        )

    -- If NewCommandRequestMessage draws the request id of the response that is the next segment of the
    -- connection, well-formed (Sent), and the receiver is at its next round, then Responder, given the
    -- message for a command that is serialised, can return this response, with its entry gone and the
    -- receiver at its next round behind the segment. The connection takes all that is written to it, and
    -- the fields of the request and the id fit their Go types.
    pub command-answered :
        (s : System X) (e : ExecuteCommandRequest) (command : Command X) (b : Bytes)
        (later : Connection)
        → marshal command ≡ some b
        → CommandRequestLaws.Fits (record e { command = b })
        → r.request_id < 2 ^ 64
        → s.receiver ≡ idle
        → s.client.connection ≡ bs ∷ later
        → (q : Message (Data X)) × (u : System X) × ((new_command_request_message marshal
              r.request_id e command).0
            ≡ some q)
          × Returns unmarshal r.request_id q answer later s u
    unfolding request_id_of new_request_response_header
    command-answered s e command b later known fits small at_idle arrives =
        let (size, made, _) =
          new_command_request_message-eq marshal r.request_id e command b known fits small in
        let e' : ExecuteCommandRequest = record e { command = b } in
        let q : Message (Data X) =
          request_message r.request_id CommandRequest.message_spec size (command_request e') in
        let (u, answered) =
          call-answered s q later refl (sender-request X r.request_id size e' fits) at_idle
            arrives in
        (q, u, ap (λ x. x.0) made, answered)
