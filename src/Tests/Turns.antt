-- ===== src/Tests/Turns.antt =====
-- Single turns of the client's goroutines.
use zbc_go.Common.{◌≡◌, refl, arith, [], ◌∷◌}
use zbc_go.Wire.{ok}
use zbc_go.Client.{sending, subscription_channel, request_id_of}
use zbc_go.Client.Steps.{System, call, returned, register, responder, stop, ◌then◌}
use zbc_go.Client.Events.{all_taken}
use zbc_go.Client.Full.{answered, full-unanswered}
use zbc_go.Tests.Broker.{unmarshal}
use zbc_go.Tests.Client.{X, answer, event_client}

-- A receiver before a full channel, while a call has its response.
abbrev full : System X
full = record {
  client = event_client;
  receiver = sending (subscription_channel 1 1) answer;
  calls = call answer 77 (returned (ok answer)) ∷ [];
  queues = λ _. answer ∷ [];
  serial = 2;
}

full-unanswered_example :
    ((register answer 77 full).receiver ≡ sending (subscription_channel 1 1) answer)
    × (answered (register answer 77 full).calls ≡ answered full.calls)
unfolding request_id_of all_taken
full-unanswered_example =
    full-unanswered unmarshal 1 1 answer (responder answer 77 refl then stop) (omega arith) refl
      refl refl
