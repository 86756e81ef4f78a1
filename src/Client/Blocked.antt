-- ===== src/Client/Blocked.antt =====
-- A receiver that sends on a nil channel.
use zbc_go.Common.{◌≡◌, Option}
use zbc_go.Wire.{Bytes}
use zbc_go.Message.{Message}
use zbc_go.Request.Values.{Data}
use zbc_go.Client.{nil_channel, sending}
use zbc_go.Client.Steps.{System, register, finish, Step, responder, send_failed, sent, respond}
use zbc_go.Client.Steps.{time_out, receiver_round, event_queued, event_taken, event_handed}
use zbc_go.Client.Steps.{subscribed, Steps, stop, ◌then◌}

module _ {X : Type 0} (unmarshal : Bytes → Option (Data X)) (m : Message (Data X)) where
  Step-stuck :
      {s t : System X}
      → Step unmarshal s t
      → s.receiver ≡ sending nil_channel m
      → t.receiver ≡ sending nil_channel m
  unfolding register finish
  Step-stuck (responder m id known) h = h
  Step-stuck (send_failed conn_write e m id before after at_call failed) h = h
  Step-stuck (sent conn_write m id before after at_call done) h = h
  Step-stuck (respond response m id k n before after at_call at_send) h = cc
  Step-stuck (time_out ch m id before after at_call) h = h
  Step-stuck (receiver_round at_idle) h = cc
  Step-stuck (event_queued m n capacity at_send room) h = cc
  Step-stuck (event_taken m n rest at_queue) h = h
  Step-stuck (event_handed m n at_send) h = cc
  Step-stuck (subscribed ts response m id c before after at_call opened) h = h

  pub Steps-stuck :
      {s t : System X}
      → Steps unmarshal s t
      → s.receiver ≡ sending nil_channel m
      → t.receiver ≡ sending nil_channel m
  Steps-stuck stop h = h
  Steps-stuck (step then steps) h = Steps-stuck steps (Step-stuck step h)
