-- ===== src/Request/Wire.antt =====
-- A request of NewCommandRequestMessage on the wire.
use zbc_go.Common.{
  ℕ, ◌^◌, ◌≤◌, ◌<◌, ◌≡◌, sym, ap, ◌∙◌, Option, none, some, [], ◌∷◌, length, replicate,
}
use zbc_go.Wire.{Bytes, ok}
use zbc_go.Sbe.ExecuteCommandRequest as CommandRequest
use zbc_go.Sbe.ExecuteCommandRequest.{ExecuteCommandRequest}
use zbc_go.Sbe.ExecuteCommandRequest.Laws as CommandRequestLaws
use zbc_go.Message.{Message, command_request}
use zbc_go.Writer.{write}
use zbc_go.Writer.Laws.{sbe_layout, full_headers}
use zbc_go.Reader.Buffer.{Connection}
use zbc_go.Reader.Headers.{read_headers}
use zbc_go.Reader.Laws.{reader}
use zbc_go.Reader.Written.{read_headers-write}
use zbc_go.Request.Values.{Data}
use zbc_go.Request.{Command, new_command_request_message, sbe_header}
use zbc_go.Request.Laws.{
  request_frame, request_transport, request_pair, new_command_request_message-eq,
}

module _ {X : Type 0} (marshal : Command X → Option Bytes) (drawn : ℕ) where
  some_message : {x y : Message (Data X)} → some x ≡ some y → x ≡ y
  some_message {x} h = ap (λ o. elim o [ some a ↦ a | none ↦ x ]) h

  -- The message that NewCommandRequestMessage returns for a command with the serialisation `b`, once
  -- written and delivered in one segment that fits the peer's buffer, is read by ReadHeaders as its
  -- headers, the drawn request id among them, and the SBE bytes of the request with `b`, and fewer
  -- than eight zero bytes stay behind; the fields of the request and the id fit their Go types.
  pub read_headers-new_command_request_message :
      (e : ExecuteCommandRequest) (command : Command X) (b bs : Bytes) (msg : Message (Data X))
      (buffer : ℕ) (later : Connection)
      → marshal command ≡ some b
      → CommandRequestLaws.Fits (record e { command = b })
      → drawn < 2 ^ 64
      → (new_command_request_message marshal drawn e command).0 ≡ some msg
      → write msg [] ≡ ok (tt, bs)
      → length bs ≤ buffer
      → (size : ℕ) × (n : ℕ) × (n < 8)
        × (read_headers (reader buffer [] (bs ∷ later)) ≡ (
          ok (
              some (
                full_headers
                    (request_frame size)
                    request_transport
                    (request_pair drawn)
                    (sbe_header CommandRequest.message_spec),
                sbe_layout (command_request (record e { command = b })),
              )),
          reader buffer (replicate n 0) later,
        ))
  read_headers-new_command_request_message e command b bs msg buffer later known fits small made
        written room =
      let (size, built, sound) =
        new_command_request_message-eq marshal drawn e command b known fits small in
      let same = some_message (sym made ∙ ap (λ x. x.0) built) in
      let (n, few, read) =
        read_headers-write (request_frame size) request_transport (request_pair drawn)
          (sbe_header CommandRequest.message_spec) (command_request (record e { command = b })) none
          bs buffer later sound fits (rw same at written) room in
      (size, n, few, read)
