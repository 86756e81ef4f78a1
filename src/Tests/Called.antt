-- ===== src/Tests/Called.antt =====
-- A command through the whole client, with a connection that takes everything.
use zbc_go.Common.{ℕ, ◌≡◌, refl, arith, Option, none, some, [], ◌∷◌, length}
use zbc_go.Wire.{Bytes, Error}
use zbc_go.Message.{Message}
use zbc_go.Writer.Laws.{full_message}
use zbc_go.Request.Values.{Data, nil_data}
use zbc_go.Request.{deployment_command, new_command_request_message}
use zbc_go.Client.{new_client}
use zbc_go.Client.Steps.{System, initial}
use zbc_go.Client.Called.{Returns, command-answered}
use zbc_go.Tests.Broker.{unmarshal, frame, transport, request_id, header, response, response_bytes}
use zbc_go.Tests.Broker.{response-Sent}
use zbc_go.Tests.Requests.{marshal, request, deployment}

abbrev write_all : Bytes → ℕ × Option Error
write_all bs = (length bs, none)

command-answered_example :
    (q : Message (Data (Unit {0}))) × (u : System (Unit {0})) × ((new_command_request_message
        marshal 77 request
        (deployment_command deployment)).0
      ≡ some q)
    × Returns unmarshal 77 q
        (full_message frame transport (some request_id) header response (some nil_data))
        []
        (initial (response_bytes ∷ []))
        u
unfolding marshal initial new_client
command-answered_example =
    command-answered write_all (λ bs. refl) unmarshal marshal frame transport header request_id
      response nil_data response_bytes response-Sent (initial (response_bytes ∷ [])) request
      (deployment_command deployment) (0x84 ∷ []) [] refl (omega arith) (omega arith) refl refl
