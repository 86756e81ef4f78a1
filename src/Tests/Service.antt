-- ===== src/Tests/Service.antt =====
-- The example service: a worker with a broker that completes its tasks, and requests to the service.
use mathlib.Core.List.{Mem}
use zbc_go.Common.{
  ◌==◌, if◌then◌else◌, pos, ◌≡◌, refl, arith, true, false, Option, none, some, List, [], ◌∷◌,
}
use zbc_go.Wire.{Bytes, Error, Outcome, ok, err, panic, nil_pointer, timeout}
use zbc_go.Protocol.{new_request_response_header}
use zbc_go.Message.{Message, set_data, no_message, set_sbe_message, subscribed_event}
use zbc_go.Request.Values.{Data, data_of, text_value, uint64_value, set_value, get_value}
use zbc_go.Request.{Command, new_complete_task_message, as_subscribed_event}
use zbc_go.Client.{request_id_of}
use zbc_go.Client.Calls.{call_responder, task_consumer}
use zbc_go.TaskService.{Counters, Selected, task_message, stop_value, completion}
use zbc_go.TaskService.{is_completed, work, open_subscription, response_of}
use zbc_go.TaskService.Worker.{
  Answered, waits, returns, goes_on, completes, stops, completed, counted,
}
use zbc_go.TaskService.Worker.{work-counted, worker-unanswered, open_subscription-failed}
use zbc_go.TaskService.Views.{goroutine, main, Json, stats_view, body, write_json}
use zbc_go.TaskService.Stopping.{start, stop, handle, handle_all, start_twice-unstoppable}
use zbc_go.TaskService.Fresh.{IsFresh, has_key, stop-all}
use zbc_go.Tests.Broker.{event}

abbrev X : Type 0
X = Unit

abbrev marshal : Command X → Option Bytes
marshal command = some (0x80 ∷ [])

abbrev done : Data X
done = data_of (("state", text_value "COMPLETED") ∷ [])

-- A broker that completes every task, and one that answers nothing.
abbrev answer : Message (Data X) → Outcome (Message (Data X))
answer m = ok (set_data (some done) no_message)

abbrev silent : Message (Data X) → Outcome (Message (Data X))
silent m = err timeout

abbrev task : Message (Data X)
task = set_data (some (data_of [])) (set_sbe_message (subscribed_event event) no_message)

abbrev zero : Counters
zero = record { processed_events_count = 0; error_count = 0 }

task_completes : completion marshal answer 1 task ≡ ok done
unfolding completion new_complete_task_message call_responder request_id_of response_of
    as_subscribed_event set_value
task_completes = refl

abbrev rounds : List (Selected X)
rounds = task_message task 1 ∷ stop_value false ∷ stop_value true ∷ []

rounds-Answered : Answered marshal answer rounds (done ∷ [])
rounds-Answered = completes task 1 done task_completes (goes_on (returns []))

work-counted_example : work marshal answer rounds zero ≡ ok (true, counted 1 zero)
unfolding stops completed is_completed get_value
work-counted_example = work-counted marshal answer zero rounds-Answered (omega arith)

open_subscription-failed_example :
    open_subscription marshal silent none 2 (pos 0) "default-topic" "zbc" "foo" rounds zero
    ≡ ok (true, record zero { error_count = 1 })
unfolding stops task_consumer call_responder request_id_of
open_subscription-failed_example =
    open_subscription-failed marshal silent 2 (pos 0) "default-topic" "zbc" "foo" rounds zero
      timeout refl

-- A broker that opens subscriptions, whose requests have the id 2, and answers nothing else.
abbrev only_opens : Message (Data X) → Outcome (Message (Data X))
only_opens m = elim (request_id_of (some m)) [
  | ok id ↦
      if id == 2
      then ok (set_data (some (data_of (("subscriberKey", uint64_value 5) ∷ []))) no_message)
      else err timeout
  | _ ↦ err timeout
]

worker-unanswered_example :
    open_subscription marshal only_opens none 2
      (pos 0)
      "default-topic"
      "zbc"
      "foo"
      (stop_value false ∷ task_message task 1 ∷ [])
      zero
    ≡ panic nil_pointer
unfolding stops task_consumer call_responder request_id_of new_complete_task_message
    as_subscribed_event set_value new_request_response_header
worker-unanswered_example =
    worker-unanswered marshal only_opens [] zero task _ _ 1 2 5 (pos 0) "default-topic" "zbc" "foo"
      timeout refl (goes_on waits) refl refl refl

abbrev marshal_indent : Data Json → Bytes × Option Error
marshal_indent resp = (b'{' ∷ 10 ∷ b'}' ∷ [], none)

abbrev marshal_json : Data Json → Bytes × Option Error
marshal_json resp = (b'{' ∷ b'}' ∷ [], none)

start_twice-unstoppable_example :
    Mem
      (goroutine none 1 "zbc-20170801120000")
      (handle marshal_json marshal_indent stop (
        handle marshal_json marshal_indent (start "20170801120000") (
          handle marshal_json marshal_indent
            (start "20170801120000")
            (handle marshal_json marshal_indent (start "20170801110000") main)))).running
unfolding main handle_all handle
start_twice-unstoppable_example =
    start_twice-unstoppable marshal_json marshal_indent (start "20170801110000" ∷ []) (stop ∷ [])
      "20170801120000"

stop-all_example :
    (handle marshal_json marshal_indent stop (
      handle_all marshal_json marshal_indent
        (start "20170801120000" ∷ start "20170801120001" ∷ [])
        main)).running
    ≡ []
unfolding IsFresh has_key main handle
stop-all_example =
    stop-all marshal_json marshal_indent (start "20170801120000" ∷ start "20170801120001" ∷ [])
      (refl, (refl, tt))

-- A service without workers.
idle_stats : stats_view marshal_indent zero main ≡ body (b'{' ∷ 10 ∷ b'}' ∷ []) ∷ []
unfolding stats_view main write_json
idle_stats = refl
