-- ===== src/TaskService/Views.antt =====
-- examples/task-svc/main.go: the handlers of HTTP requests, one at a time. A stop channel is its
-- number; a goroutine that has started runs until it gets true from its stop channel.
use zbc_go.Common.{
  ℕ, ℤ, pos, ◌+◌, ◌==◌, ◌||◌, String, Bool, true, false, Option, none, some, List, [],
}
use zbc_go.Common.{◌∷◌, length, if◌then◌else◌}
use zbc_go.Wire.{Bytes, Error}
use zbc_go.Request.Values.{Data, Value, data_of, text_value, uint64_value, other_value, set_entry}
use zbc_go.TaskService.{Counters}
use Prim.Native.String as Native
use text.Mathlib.Text as Text

-- What a goroutine of openSubscription was started with: its client, which is nil where NewClient has
-- failed, its stop channel, and the texts and the partition of its subscription.
pub record Goroutine : Type 0 where
  pub client : Option Error
  pub stop_ch : ℕ
  pub pid : ℤ
  pub topic : String
  pub lock_owner : String
  pub task_type : String

-- workers, and the goroutines that run.
pub record Service : Type 0 where
  pub workers : List (String × ℕ)
  pub running : List Goroutine
  pub next_channel : ℕ

unfoldable pub main : Service
main = record { workers = []; running = []; next_channel = 0 }

-- workers[k] = ch
unfoldable pub set_worker : String → ℕ → List (String × ℕ) → List (String × ℕ)
set_worker k ch [] = (k, ch) ∷ []
set_worker k ch ((k', ch') ∷ workers) =
    let rest = set_worker k ch workers in
    if Text.◌==◌ k k' then (k, ch) ∷ workers else (k', ch') ∷ rest

-- The values of a response that are neither texts nor uint64 numbers.
pub data Json : Type 0 where
  int_value : ℕ → Json
  bool_value : Bool → Json
  texts_value : List String → Json

-- What a handler does with its http.ResponseWriter.
pub data Written : Type 0 where
  http_error : Error → ℕ → Written
  body : Bytes → Written

-- In the order of the list; that of Go's map is not specified.
unfoldable pub keys : List (String × ℕ) → List String
keys [] = []
keys ((k, _) ∷ workers) = k ∷ keys workers

-- Whether a channel is one of those that stopWorkersView sends to.
unfoldable pub has_channel : ℕ → List (String × ℕ) → Bool
has_channel n [] = false
has_channel n ((_, ch) ∷ workers) = n == ch || has_channel n workers

-- The goroutines that do not get a value of `workers`.
unfoldable pub unreached : List (String × ℕ) → List Goroutine → List Goroutine
unfolding has_channel
unreached workers [] = []
unreached workers (g ∷ running) =
    let rest = unreached workers running in if has_channel g.stop_ch workers then rest else g ∷ rest

-- go openSubscription(zbClient, workers[lockOwner], 0, "default-topic", lockOwner, "foo")
abbrev pub goroutine : Option Error → ℕ → String → Goroutine
goroutine client stop_ch lock_owner = record {
  client = client;
  stop_ch = stop_ch;
  pid = pos 0;
  topic = "default-topic";
  lock_owner = lock_owner;
  task_type = "foo";
}

-- json.Marshal for the first handler, and json.MarshalIndent for the other two.
module _ (marshal : Data Json → Bytes × Option Error) where
  -- The end of each handler.
  unfoldable pub write_json : List (String × Value Json) → List Written
  write_json resp =
      let (json_resp, e) = marshal (data_of resp) in
      elim e [ none ↦ body json_resp ∷ [] | some x ↦ http_error x 500 ∷ body json_resp ∷ [] ]

  -- `now` is the formatted time, and `dialled` the error of NewClient.
  unfoldable pub start_worker_view : Option Error → String → Service → Service × List Written
  unfolding set_worker write_json set_entry
  start_worker_view dialled now s =
      let resp : List (String × Value Json) = elim dialled [
        | none ↦ []
        | some _ ↦ set_entry "status" (other_value (int_value 500)) []
      ] in
      let resp : List (String × Value Json) =
        set_entry "status" (other_value (int_value 200)) resp in
      let lock_owner = Native.◌++◌ "zbc-" now in
      let started : Service = record {
        workers = set_worker lock_owner s.next_channel s.workers;
        running = goroutine dialled s.next_channel lock_owner ∷ s.running;
        next_channel = s.next_channel + 1;
      } in
      (started, write_json (set_entry "workerID" (text_value lock_owner) resp))

  unfoldable pub stats_view : Counters → Service → List Written
  unfolding keys write_json set_entry
  stats_view counters s =
      let resp : List (String × Value Json) =
        set_entry "Running" (other_value (bool_value true)) [] in
      if length s.workers == 0
      then write_json (set_entry "Running" (other_value (bool_value false)) resp)
      else write_json (
          set_entry "WorkersIDs" (other_value (texts_value (keys s.workers))) (
            set_entry "ErrorCount" (uint64_value counters.error_count) (
              set_entry "ProcessedEventsCount" (uint64_value counters.processed_events_count)
                (set_entry "WorkersRunning" (other_value (int_value (length s.workers))) resp))))

  -- Each goroutine whose channel is in workers takes true from it, and returns.
  unfoldable pub stop_workers_view : Service → Service × List Written
  unfolding unreached write_json set_entry
  stop_workers_view s =
      let stopped : Service = record s { running = unreached s.workers s.running; workers = [] } in
      (stopped, write_json (set_entry "Status" (other_value (int_value 200)) []))
