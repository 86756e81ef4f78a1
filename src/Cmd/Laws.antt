-- ===== src/Cmd/Laws.antt =====
-- What the commands of zbctl send and print.
use Prim.Native.String as Native
use zbc_go.Common.{ℕ, ◌≡◌, ◌<◌, ◌^◌, ◌==◌, if◌then◌else◌, String, [], ◌∷◌, Option, none, some}
use zbc_go.Wire.{Bytes, Error, ok, panic, fatal_exit, resource_not_found}
use zbc_go.Wire.Text.{string_bytes}
use zbc_go.Sbe.ExecuteCommandRequest as CommandRequest
use zbc_go.Sbe.ExecuteCommandRequest.{ExecuteCommandRequest}
use zbc_go.Sbe.ExecuteCommandRequest.Laws as CommandRequestLaws
use zbc_go.Message.{Message, command_request}
use zbc_go.Request.Values.{Data, nil_data}
use zbc_go.Request.{Task, task_command, fill_payload}
use zbc_go.Request.Laws.{request_message}
use zbc_go.Request.Payloads.{filled, Announcing, new_task_message-eq}
use zbc_go.Client.{request_id_of}
use zbc_go.Client.Calls.{call_responder}
use zbc_go.Cmd.Printing.{Output, line, error_line, data_line, try, is_fatal}
use zbc_go.Cmd.{Config, contact_string, Environment, empty_request, load_file, load_command_yaml}
use zbc_go.Cmd.{send_request, send_task}
use zbc_go.Cmd.Actions.{Context, zero_task, print_data, connect, create_task, deploy}

abbrev pub loading : {X : Type 0} → String → Output X
loading path = line (Native.◌++◌ "Loading resource at " path)

-- What loadFile returns.
abbrev pub loaded : {X : Type 0} → Environment X → String → Bytes × Option Error
loaded env path =
    if Native.len path == 0 then ([], some resource_not_found) else env.read_file (env.abs path)

-- The broker answers each message for the request with `response`.
abbrev pub Answers :
    {X : Type 0} → Environment X → ExecuteCommandRequest → Message (Data X) → Type 0
Answers env e response =
    (size : ℕ)
    → env.answer (request_message env.drawn CommandRequest.message_spec size (command_request e))
      ≡ ok response

module _ {X : Type 0} (env : Environment X) (conf : Config) where
  call_responder-Answers :
      (e : ExecuteCommandRequest) (msg : Option (Message (Data X))) (response : Message (Data X))
      → Announcing env.drawn e msg
      → Answers env e response
      → call_responder env.answer msg ≡ ok response
  unfolding call_responder request_id_of
  call_responder-Answers e msg response (size, made, _) answers = rw made (answers size)

  send_request-Answers :
      (e : ExecuteCommandRequest) (msg : Option (Message (Data X))) (response : Message (Data X))
      → Announcing env.drawn e msg
      → Answers env e response
      → send_request env msg ≡ ([], ok (some response, none))
  unfolding send_request try
  send_request-Answers e msg response sound answers =
      rw (call_responder-Answers e msg response sound answers)

  abbrev pub task_request : Bytes → ExecuteCommandRequest
  task_request b = filled (empty_request (string_bytes "default-topic")) 0 b

  send_task-eq :
      (topic : String) (task : Task X) (p b : Bytes) (response : Message (Data X))
      → env.drawn < 2 ^ 64
      → fill_payload env.marshal env.drawn task.payload task.payload_json ≡ some p
      → env.marshal (task_command (record task { payload = some p })) ≡ some b
      → CommandRequestLaws.Fits (task_request b)
      → Answers env (task_request b) response
      → send_task env topic task ≡ ([], ok (some response, none))
  unfolding send_task
  send_task-eq topic task p b response small payload known fits answers =
      send_request-Answers (task_request b) _ response
        (new_task_message-eq env.marshal env.drawn small
          (empty_request (string_bytes "default-topic")) task p b payload known fits).0
        answers

  -- If YAML reads the file of the command as a task, and the broker is reached and answers the request
  -- for this task, which is for the topic "default-topic" whatever the flag topic says, with a response
  -- that has data, then create-task prints this data after its lines, and ends well. The task and its
  -- payload are serialised, and the fields of the request and the id that is drawn fit their Go types.
  pub create_task-eq :
      (c : Context) (task : Task X) (p b : Bytes) (response : Message (Data X)) (d : Data X)
      → env.yaml_task (loaded env c.first_arg).0 zero_task ≡ (task, none)
      → env.dial (contact_string conf.broker) ≡ none
      → env.drawn < 2 ^ 64
      → fill_payload env.marshal env.drawn task.payload task.payload_json ≡ some p
      → env.marshal (task_command (record task { payload = some p })) ≡ some b
      → CommandRequestLaws.Fits (task_request b)
      → Answers env (task_request b) response
      → response.payload ≡ some d
      → create_task env conf c ≡ (
        loading c.first_arg
            ∷ line "Connected to Zeebe."
            ∷ line "Success. Received response:"
            ∷ data_line d
            ∷ [],
        ok tt,
      )
  unfolding create_task connect load_command_yaml load_file is_fatal print_data
  create_task-eq c task p b response d read dialled small payload known fits answers shown = rw (
    read,
    dialled,
    send_task-eq (c.string_flag "topic") task p b response small payload known fits answers,
    shown,
  )

  -- If the file of the command cannot be read, or its path is empty, and YAML reads nothing from no
  -- bytes, the broker is reached and answers the request for the empty task with data, then create-task
  -- drops the error, and prints this data as it does for a file that is there. The empty task and its
  -- payload are serialised, and the fields of the request and the id that is drawn fit their Go types.
  pub create_task-missing_file :
      (c : Context) (e : Error) (p b : Bytes) (response : Message (Data X)) (d : Data X)
      → loaded env c.first_arg ≡ ([], some e)
      → env.yaml_task [] zero_task ≡ (zero_task, none)
      → env.dial (contact_string conf.broker) ≡ none
      → env.drawn < 2 ^ 64
      → fill_payload env.marshal env.drawn none nil_data ≡ some p
      → env.marshal (task_command (record zero_task { payload = some p })) ≡ some b
      → CommandRequestLaws.Fits (task_request b)
      → Answers env (task_request b) response
      → response.payload ≡ some d
      → create_task env conf c ≡ (
        loading c.first_arg
            ∷ line "Connected to Zeebe."
            ∷ line "Success. Received response:"
            ∷ data_line d
            ∷ [],
        ok tt,
      )
  create_task-missing_file c e p b response d missing empty dialled small payload known fits answers
        shown =
      create_task-eq c zero_task p b response d (rw missing empty) dialled small payload known fits
        answers shown

  -- What deploy does with the file of the command: if it cannot be read, or its path is empty, deploy
  -- prints the error and exits, before it looks for the broker.
  pub deploy-missing_file :
      (c : Context) (e : Error)
      → loaded env c.first_arg ≡ ([], some e)
      → deploy env conf c ≡ (loading c.first_arg ∷ error_line e ∷ [], panic fatal_exit)
  unfolding deploy load_file is_fatal
  deploy-missing_file c e missing = rw missing
