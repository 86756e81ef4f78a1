-- ===== src/Tests/Cmd.antt =====
-- zbctl with a broker that answers everything.
use Prim.Native.String as Native
use zbc_go.Common.{◌≡◌, refl, arith, none, some, [], ◌∷◌, ◌++◌, negsuc}
use zbc_go.Wire.{ok, panic, fatal_exit, nil_pointer, failure, resource_not_found}
use zbc_go.Wire.Text.{string_bytes}
use zbc_go.Message.{Message, set_data, no_message}
use zbc_go.Request.Values.{Data, nil_data, data_of, text_value, uint64_value, get_value}
use zbc_go.Request.{Task, fill_payload}
use zbc_go.Client.{subscriber_key_of}
use zbc_go.Cmd.Printing.{line, data_line, error_line}
use zbc_go.Cmd.{Config, Environment}
use zbc_go.Cmd.Actions.{Context, create_task, deploy, open_action}
use zbc_go.Cmd.Laws.{loading, create_task-eq, create_task-missing_file, deploy-missing_file}
use zbc_go.Cmd.Events.{with_data, event_lines, open_action-eq}

abbrev X : Type 0
X = Unit

abbrev created : Data X
created = data_of (("state", text_value "CREATED") ∷ ("subscriberKey", uint64_value 5) ∷ [])

abbrev answer : Message (Data X)
answer = set_data (some created) no_message

abbrev some_task : Task X
some_task = record {
  state = "CREATE";
  headers = nil_data;
  retries = 3;
  task_type = "foo";
  payload = none;
  payload_json = data_of [];
}

-- Only the file /task.yml is there.
abbrev env : Environment X
env = record {
  abs = λ path. path;
  read_file = λ path. elim path [
    | Native.[] ↦ ([], some (failure "no such file"))
    | Native.◌∷◌ c _ ↦ (b'a' ∷ [], none)
  ];
  yaml_task = λ bs task. elim bs [ [] ↦ (task, none) | _ ∷ _ ↦ (some_task, none) ];
  yaml_workflow_instance = λ bs wf. (wf, none);
  toml = λ path c. (c, none);
  dial = λ address. none;
  marshal = λ command. some (0x80 ∷ []);
  drawn = 7;
  answer = λ m. ok answer;
}

abbrev conf : Config
conf = record { version = "0.1"; broker = record { address = "0.0.0.0"; port = "51015" } }

abbrev with_file : Context
with_file = record {
  first_arg = "/task.yml";
  string_flag = λ name. name;
  int64_flag = λ name. negsuc 0;
}

abbrev without_file : Context
without_file = record with_file { first_arg = "" }

create_task-eq_example : create_task env conf with_file ≡ (
  loading "/task.yml"
      ∷ line "Connected to Zeebe."
      ∷ line "Success. Received response:"
      ∷ data_line created
      ∷ [],
  ok tt,
)
unfolding fill_payload string_bytes
create_task-eq_example =
    create_task-eq env conf with_file some_task (0x80 ∷ []) (0x80 ∷ []) answer created refl refl
      (omega arith) refl refl (omega arith) (λ size. refl) refl

create_task-missing_file_example : create_task env conf without_file ≡ (
  loading ""
      ∷ line "Connected to Zeebe."
      ∷ line "Success. Received response:"
      ∷ data_line created
      ∷ [],
  ok tt,
)
unfolding fill_payload string_bytes
create_task-missing_file_example =
    create_task-missing_file env conf without_file resource_not_found (0x80 ∷ []) (0x80 ∷ []) answer
      created refl refl refl (omega arith) refl refl (omega arith) (λ size. refl) refl

-- deploy exits where create-task goes on.
missing_deployed :
    deploy env conf without_file
    ≡ (loading "" ∷ error_line resource_not_found ∷ [], panic fatal_exit)
missing_deployed = deploy-missing_file env conf without_file resource_not_found refl

open_action-eq_example :
    (open_action env conf (with_data ((answer, created) ∷ [])) with_file
      ≡ (event_lines ((answer, created) ∷ []), ok tt))
    × (open_action env conf
          (with_data ((answer, created) ∷ []) ++ no_message ∷ answer ∷ [])
          with_file
        ≡ (event_lines ((answer, created) ∷ []), panic nil_pointer))
unfolding subscriber_key_of get_value
open_action-eq_example =
    open_action-eq env conf with_file (0x80 ∷ []) answer 5 ((answer, created) ∷ []) no_message
      (answer ∷ []) refl (omega arith) (omega arith) refl (λ size. refl) refl refl
