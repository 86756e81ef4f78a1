-- ===== src/TaskService.antt =====
-- examples/task-svc/main.go: a service whose workers complete tasks. What a call of Responder ends
-- with is a parameter, as are the MessagePack and JSON libraries.
pub mod Views
pub mod Worker
pub mod Stopping
pub mod Fresh
use zbc_go.Common.{
  pos, ℕ, ◌+◌, ◌%◌, ◌^◌, ℤ, String, Bool, true, false, Option, none, some, List, [],
}
use zbc_go.Common.{◌∷◌, if◌then◌else◌}
use zbc_go.Wire.{Bytes, Error, Outcome, ok, err, panic, nil_pointer}
use zbc_go.Wire.Outcomes.{◌>>=◌, deref}
use zbc_go.Message.{Message}
use zbc_go.Request.Values.{Data, Value, text_value, get_value}
use zbc_go.Request.{Command, TaskSubscription, new_complete_task_message}
use zbc_go.Client.Calls.{call_responder, task_consumer}
use text.Mathlib.Text as Text

-- The two uint64 counters.
pub record Counters : Type 0 where
  pub processed_events_count : ℕ
  pub error_count : ℕ

-- atomic.AddUint64(&n, 1)
unfoldable pub add_one : ℕ → ℕ
add_one n = (n + 1) % 2 ^ 64

-- What a round of a worker's select takes: a message of its subscription, with the request id that
-- the completion will draw, or a value of its stop channel.
pub data Selected (X : Type 0) : Type 0 where
  task_message : Message (Data X) → ℕ → Selected X
  stop_value : Bool → Selected X

-- What can be selected where the channel of the subscription is nil.
unfoldable pub without_tasks : {X : Type 0} → List (Selected X) → List (Selected X)
without_tasks [] = []
without_tasks (task_message m drawn ∷ rest) = without_tasks rest
without_tasks (stop_value b ∷ rest) = stop_value b ∷ without_tasks rest

-- (*response.Data)["state"] == "COMPLETED"
unfoldable pub is_completed : {X : Type 0} → Data X → Bool
unfolding get_value
is_completed d = elim (get_value "state" d) [
  | some (text_value s) ↦ Text.◌==◌ s "COMPLETED"
  | _ ↦ false
]

-- The response of Responder, which is nil beside an error.
unfoldable pub response_of : {A : Type 0} → Outcome A → Outcome (Option A)
response_of (ok a) = ok (some a)
response_of (err _) = ok none
response_of (panic p) = panic p

unfoldable pub count_response : {X : Type 0} → Data X → Counters → Counters
unfolding is_completed add_one
count_response d counters =
    if is_completed d
    then record counters { processed_events_count = add_one counters.processed_events_count }
    else counters

abbrev pub task_subscription : ℤ → String → String → String → TaskSubscription
task_subscription pid topic lo task_type = record {
  subscriber_key = 0;
  topic_name = topic;
  partition_id = pid;
  task_type = task_type;
  lock_duration = 300000;
  lock_owner = lo;
  credits = pos 32;
}

module _ {X : Type 0} (marshal : Command X → Option Bytes)
    (answer : Message (Data X) → Outcome (Message (Data X))) where
  -- The data of the response to the completion of a task.
  unfoldable pub completion : ℕ → Message (Data X) → Outcome (Data X)
  unfolding new_complete_task_message call_responder response_of
  completion drawn message = do
    (complete_task_msg, _) ← new_complete_task_message marshal drawn message
    response ← response_of (call_responder answer complete_task_msg)
    m ← deref response
    deref m.payload

  -- The case of a message.
  unfoldable pub complete_task : ℕ → Message (Data X) → Counters → Outcome Counters
  unfolding completion count_response
  complete_task drawn message counters = do
    d ← completion drawn message
    ok (count_response d counters)

  -- The loop of openSubscription, over what its rounds select: whether it has returned, and the
  -- counters.
  unfoldable pub work : List (Selected X) → Counters → Outcome (Bool × Counters)
  unfolding complete_task
  work [] counters = ok (false, counters)
  work (stop_value true ∷ rest) counters = ok (true, counters)
  work (stop_value false ∷ rest) counters = work rest counters
  work (task_message message drawn ∷ rest) counters =
      complete_task drawn message counters >>= work rest

  -- An error of TaskConsumer is counted, and the loop goes on with the nil channel.
  unfoldable pub subscribe_and_work :
      ℕ → TaskSubscription → List (Selected X) → Counters → Outcome (Bool × Counters)
  unfolding task_consumer work without_tasks add_one
  subscribe_and_work drawn task_sub rounds counters =
      elim (task_consumer answer marshal drawn task_sub) [
        | ok _ ↦ work rounds counters
        | err _ ↦
            work (without_tasks rounds)
              (record counters { error_count = add_one counters.error_count })
        | panic p ↦ panic p
      ]

  -- openSubscription, for the client of NewClient, which is nil where it is `some` error: Responder
  -- then looks for the tables of a nil client.
  unfoldable pub open_subscription :
      Option Error
      → ℕ
      → ℤ
      → String
      → String
      → String
      → List (Selected X)
      → Counters
      → Outcome (Bool × Counters)
  unfolding subscribe_and_work
  open_subscription (some _) drawn pid topic lo task_type rounds counters = panic nil_pointer
  open_subscription none drawn pid topic lo task_type rounds counters =
      subscribe_and_work drawn (task_subscription pid topic lo task_type) rounds counters
