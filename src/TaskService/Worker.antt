-- ===== src/TaskService/Worker.antt =====
-- What a worker's loop counts, and where it ends.
use zbc_go.Common.{
  ℕ, ℤ, ◌+◌, ◌%◌, ◌^◌, ◌<◌, ◌≡◌, refl, ap, arith, Bool, true, false, Option, none, List, [], ◌∷◌,
  ◌++◌, Bool-cases, inl, inr, if◌then◌else◌, String,
}
use zbc_go.Wire.{Bytes, Error, Outcome, ok, err, panic, nil_pointer}
use zbc_go.Message.{Message}
use zbc_go.Request.Values.{Data}
use zbc_go.Request.{Command, new_complete_task_message}
use zbc_go.Client.Calls.{call_responder, task_consumer}
use zbc_go.TaskService.{
  Counters, add_one, count_response, Selected, task_message, stop_value, without_tasks,
}
use zbc_go.TaskService.{
  is_completed, response_of, task_subscription, completion, complete_task, work,
}
use zbc_go.TaskService.{subscribe_and_work, open_subscription}

-- Whether true has come on the stop channel.
unfoldable pub stops : {X : Type 0} → List (Selected X) → Bool
stops [] = false
stops (stop_value true ∷ rest) = true
stops (stop_value false ∷ rest) = stops rest
stops (task_message m drawn ∷ rest) = stops rest

-- The tasks before that, with the data of the responses to their completions.
pub data Answered {X : Type 0} (marshal : Command X → Option Bytes)
    (answer : Message (Data X) → Outcome (Message (Data X)))
    : List (Selected X) → List (Data X) → Type 0 where
  waits : Answered marshal answer [] []
  returns : (rest : List (Selected X)) → Answered marshal answer (stop_value true ∷ rest) []
  goes_on :
      {rest : List (Selected X)} {ds : List (Data X)}
      → Answered marshal answer rest ds
      → Answered marshal answer (stop_value false ∷ rest) ds
  completes :
      {rest : List (Selected X)} {ds : List (Data X)} (m : Message (Data X)) (drawn : ℕ)
      (d : Data X)
      → completion marshal answer drawn m ≡ ok d
      → Answered marshal answer rest ds
      → Answered marshal answer (task_message m drawn ∷ rest) (d ∷ ds)

unfoldable pub completed : {X : Type 0} → List (Data X) → ℕ
unfolding is_completed
completed [] = 0
completed (d ∷ ds) = let rest = completed ds in if is_completed d then 1 + rest else rest

-- The counters after `n` more completed tasks.
abbrev pub counted : ℕ → Counters → Counters
counted n counters = record counters {
  processed_events_count = (counters.processed_events_count + n) % 2 ^ 64;
}

counted_zero : (c : Counters) → c.processed_events_count < 2 ^ 64 → c ≡ counted 0 c
counted_zero c fits = ap (λ n. record c { processed_events_count = n }) (omega arith)

counted_suc :
    {X : Type 0} (d : Data X) (ds : List (Data X)) (c : Counters)
    → counted (completed ds) (count_response d c) ≡ counted (completed (d ∷ ds)) c
unfolding completed count_response add_one
counted_suc d ds c = elim (Bool-cases (is_completed d)) [
  | inl e ↦ rw e (ap (λ n. record c { processed_events_count = n }) (omega arith))
  | inr e ↦ rw e
]

count_response_fits :
    {X : Type 0} (d : Data X) (c : Counters)
    → c.processed_events_count < 2 ^ 64
    → (count_response d c).processed_events_count < 2 ^ 64
unfolding count_response add_one
count_response_fits d c fits = elim (Bool-cases (is_completed d)) [
  | inl e ↦ rw e (omega arith)
  | inr e ↦ rw e fits
]

module _ {X : Type 0} (marshal : Command X → Option Bytes)
    (answer : Message (Data X) → Outcome (Message (Data X))) where
  -- Where every completion that a worker asks for before it gets true from its stop channel is answered
  -- with data, the worker counts those in whose data "state" is "COMPLETED", modulo 2 ^ 64, counts no
  -- error, and returns if it has got true; else it waits.
  pub work-counted :
      {rounds : List (Selected X)} {ds : List (Data X)} (counters : Counters)
      → Answered marshal answer rounds ds
      → counters.processed_events_count < 2 ^ 64
      → work marshal answer rounds counters ≡ ok (stops rounds, counted (completed ds) counters)
  unfolding work stops completed
  work-counted counters waits fits = ap (λ c. ok (false, c)) (counted_zero counters fits)
  work-counted counters (returns rest) fits = ap (λ c. ok (true, c)) (counted_zero counters fits)
  work-counted counters (goes_on answered) fits = work-counted counters answered fits
  work-counted counters (completes {rest} {ds} m drawn d done answered) fits =
      rw (complete_task, done, ← counted_suc d ds counters)
        (work-counted (count_response d counters) answered (count_response_fits d counters fits))

  completion-unanswered :
      (drawn : ℕ) (m m' : Message (Data X)) (msg : Option (Message (Data X))) (e : Error)
      → new_complete_task_message marshal drawn m ≡ ok (msg, m')
      → call_responder answer msg ≡ err e
      → completion marshal answer drawn m ≡ panic nil_pointer
  unfolding completion response_of
  completion-unanswered drawn m m' msg e made failed = rw (made, failed)

  -- If Responder returns an error for the completion of a task, by a timeout or otherwise, the worker
  -- panics, whatever it has completed before, and so ends the service.
  pub work-unanswered :
      {front : List (Selected X)} {ds : List (Data X)} (rest : List (Selected X))
      (counters : Counters) (m m' : Message (Data X)) (msg : Option (Message (Data X))) (drawn : ℕ)
      (e : Error)
      → Answered marshal answer front ds
      → stops front ≡ false
      → new_complete_task_message marshal drawn m ≡ ok (msg, m')
      → call_responder answer msg ≡ err e
      → work marshal answer (front ++ task_message m drawn ∷ rest) counters ≡ panic nil_pointer
  unfolding work stops complete_task
  work-unanswered rest counters m m' msg drawn e waits going made failed =
      rw (completion-unanswered drawn m m' msg e made failed)
  work-unanswered rest counters m m' msg drawn e (returns _) going made failed = ground arith
  work-unanswered rest counters m m' msg drawn e (goes_on answered) going made failed =
      work-unanswered rest counters m m' msg drawn e answered going made failed
  work-unanswered rest counters m m' msg drawn e (completes t drawn' d done answered) going made
        failed =
      rw done (
        work-unanswered rest (count_response d counters) m m' msg drawn e answered going made
          failed)

  work-without_tasks :
      (rounds : List (Selected X)) (counters : Counters)
      → work marshal answer (without_tasks rounds) counters ≡ ok (stops rounds, counters)
  unfolding work stops without_tasks
  work-without_tasks [] counters = refl
  work-without_tasks (stop_value true ∷ rest) counters = refl
  work-without_tasks (stop_value false ∷ rest) counters = work-without_tasks rest counters
  work-without_tasks (task_message m drawn ∷ rest) counters = work-without_tasks rest counters

  -- If TaskConsumer fails, the worker counts one error, modulo 2 ^ 64, and then takes no task: it only
  -- waits for true on its stop channel.
  pub open_subscription-failed :
      (drawn : ℕ) (pid : ℤ) (topic lo task_type : String) (rounds : List (Selected X))
      (counters : Counters) (e : Error)
      → task_consumer answer marshal drawn (task_subscription pid topic lo task_type) ≡ err e
      → open_subscription marshal answer none drawn pid topic lo task_type rounds counters
        ≡ ok (stops rounds, record counters { error_count = (counters.error_count + 1) % 2 ^ 64 })
  unfolding open_subscription subscribe_and_work add_one
  open_subscription-failed drawn pid topic lo task_type rounds counters e failed =
      rw (subscribe_and_work, failed) (work-without_tasks rounds _)

  -- If TaskConsumer succeeds, and Responder returns an error for the completion of a task, by a timeout
  -- or otherwise, the worker panics and so ends the service, where every task that it took before was
  -- answered with data and it has not got true from its stop channel.
  pub worker-unanswered :
      {front : List (Selected X)} {ds : List (Data X)} (rest : List (Selected X))
      (counters : Counters) (m m' : Message (Data X)) (msg : Option (Message (Data X)))
      (drawn drawn' key : ℕ) (pid : ℤ) (topic lo task_type : String) (e : Error)
      → task_consumer answer marshal drawn' (task_subscription pid topic lo task_type) ≡ ok key
      → Answered marshal answer front ds
      → stops front ≡ false
      → new_complete_task_message marshal drawn m ≡ ok (msg, m')
      → call_responder answer msg ≡ err e
      → open_subscription marshal answer none drawn' pid topic lo task_type
          (front ++ task_message m drawn ∷ rest)
          counters
        ≡ panic nil_pointer
  unfolding open_subscription subscribe_and_work
  worker-unanswered rest counters m m' msg drawn drawn' key pid topic lo task_type e opened answered
        going made failed =
      rw (subscribe_and_work, opened)
        (work-unanswered rest counters m m' msg drawn e answered going made failed)
