-- ===== src/Client/Calls.antt =====
-- zbc/client.go: Responder and TaskConsumer as their callers see them. What a call of Responder ends
-- with, once its message has a request id, is a parameter; Client/Steps says how it comes about.
use zbc_go.Common.{ℕ, Option}
use zbc_go.Wire.{Bytes, Outcome}
use zbc_go.Wire.Outcomes.{◌>>=◌, deref}
use zbc_go.Message.{Message}
use zbc_go.Request.Values.{Data}
use zbc_go.Request.{Command, TaskSubscription, new_task_subscription_message}
use zbc_go.Client.{make_channel, request_id_of, subscriber_key_of}

module _ {X : Type 0} (answer : Message (Data X) → Outcome (Message (Data X))) where
  -- Responder looks at the message before it does anything else.
  unfoldable pub call_responder : Option (Message (Data X)) → Outcome (Message (Data X))
  unfolding request_id_of
  call_responder message = do _ ← request_id_of message; m ← deref message; answer m

  -- TaskConsumer, with the subscriber key under which it stores its channel.
  unfoldable pub task_consumer : (Command X → Option Bytes) → ℕ → TaskSubscription → Outcome ℕ
  unfolding make_channel call_responder subscriber_key_of new_task_subscription_message
  task_consumer marshal drawn ts = do
    _ ← make_channel ts.credits
    response ← call_responder (new_task_subscription_message marshal drawn ts)
    subscriber_key_of response
