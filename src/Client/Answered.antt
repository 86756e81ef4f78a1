-- ===== src/Client/Answered.antt =====
-- What Responder promises its callers.
use zbc_go.Common.{ℕ, ◌≡◌, refl, ap, ◌∙◌, Option, some, List, ◌∷◌, ◌++◌, if◌then◌else◌}
use zbc_go.Wire.{Bytes, ok}
use zbc_go.Protocol.{FrameHeader, TransportHeader, RequestResponseHeader}
use zbc_go.Sbe.MessageHeader.{MessageHeader}
use zbc_go.Message.{Message, Sbe}
use zbc_go.Writer.Laws.{full_message}
use zbc_go.Reader.Buffer.{Connection}
use zbc_go.Request.Values.{Data}
use zbc_go.Client.{idle, sending, nil_channel, response_channel, forget}
use zbc_go.Client.Steps.{
  System, Call, call, waiting, returned, Steps, stop, ◌then◌, receiver_round, respond,
  receiver_turn, finish, set_receiver,
}
use zbc_go.Client.Delivery.{Sent, receive-response}
use zbc_go.Client.Late.{delete-eq}

module _ {X : Type 0} (unmarshal : Bytes → Option (Data X)) (f : FrameHeader) (t : TransportHeader)
    (m : MessageHeader) (r : RequestResponseHeader) (sbe : Sbe) (d : Data X) (bs : Bytes)
    (sent : Sent unmarshal f t m (some r) sbe d bs) where
  -- If a call waits on the channel that the table holds for its request id, the receiver is at its
  -- next round, and a response with this id and with right parts (Sent) is the next segment, then
  -- the client can reach a state where the call has returned the response, its entry is gone, and
  -- the receiver is at its next round behind the segment.
  pub responder-answered :
      (s : System X) (q : Message (Data X)) (n : ℕ) (before after : List (Call (Data X)))
      (later : Connection)
      → s.receiver ≡ idle
      → s.client.connection ≡ bs ∷ later
      → s.client.transactions r.request_id ≡ response_channel r.request_id n
      → s.calls ≡ before ++ call q r.request_id (waiting (response_channel r.request_id n)) ∷ after
      → (u : System X) × Steps unmarshal s u
        × (u.calls
            ≡ before
              ++ call q r.request_id (returned (ok (full_message f t (some r) m sbe (some d))))
                ∷ after)
        × (u.client.transactions r.request_id ≡ nil_channel)
        × (u.client.connection ≡ later)
        × (u.receiver ≡ idle)
  unfolding receiver_turn finish forget
  responder-answered s q n before after later at_idle arrives entry at_call =
      let answer = full_message f t (some r) m sbe (some d) in
      let turn = receive-response unmarshal f t m r sbe d bs s.client later sent arrives in
      let calls = before ++ call q r.request_id (returned (ok answer)) ∷ after in
      (
        set_receiver idle (finish r.request_id calls (receiver_turn unmarshal s)),
        receiver_round at_idle
            then respond answer q r.request_id r.request_id n before after at_call
                (ap (λ x. x.0) turn ∙ ap (λ ch. sending ch answer) entry)
            then stop,
        refl,
        delete-eq r.request_id (receiver_turn unmarshal s).client.transactions,
        ap (λ x. x.1.connection) turn,
        refl,
      )
