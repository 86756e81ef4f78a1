-- ===== src/Cmd/Actions.antt =====
-- cmd/main.go: the actions of the commands, and the table that main gives to the cli package.
use zbc_go.Common.{ℤ, pos, int32, String, List, [], ◌∷◌, Option, none, some}
use zbc_go.Wire.Outcomes.{deref}
use zbc_go.Message.{Message}
use zbc_go.Request.Values.{Data, nil_data, get_value}
use zbc_go.Request.{Task, WorkflowInstance, Deployment}
use zbc_go.Cmd.Printing.{
  Run, ◌>>=◌, ◌>>◌, return, print, lift, line, data_line, value_line, is_fatal,
}
use zbc_go.Cmd.{Config, contact_string, config_string, Environment, load_file, load_command_yaml}
use zbc_go.Cmd.{load_config, send_task, send_workflow_instance, send_deployment, open_subscription}

-- What an action reads of the command line: the first argument, and the values of the flags.
pub record Context : Type 0 where
  pub first_arg : String
  pub string_flag : String → String
  pub int64_flag : String → ℤ

-- var task zbc.Task
abbrev pub zero_task : {X : Type 0} → Task X
zero_task = record {
  state = "";
  headers = nil_data;
  retries = 0;
  task_type = "";
  payload = none;
  payload_json = nil_data;
}

-- var workflowInstance zbc.WorkflowInstance
abbrev pub zero_workflow_instance : {X : Type 0} → WorkflowInstance X
zero_workflow_instance = record {
  state = "";
  bpmn_process_id = "";
  version = 0;
  payload = none;
  payload_json = nil_data;
}

-- log.Println(*response.Data)
unfoldable pub print_data : {X : Type 0} → Option (Message (Data X)) → Run X (Unit {0})
print_data response = do m ← lift (deref response); d ← lift (deref m.payload); print (data_line d)

-- What deploy prints of its response.
unfoldable pub print_state : {X : Type 0} → Option (Message (Data X)) → Run X (Unit {0})
unfolding get_value
print_state response = do
  m ← lift (deref response)
  elim m.payload [
    | none ↦ print (line "err: received nil response")
    | some d ↦ elim (get_value "state" d) [ some v ↦ print (value_line v) | none ↦ return tt ]
  ]

module _ {X : Type 0} (env : Environment X) (conf : Config) where
  -- NewClient and the test of its error.
  unfoldable pub connect : Run X (Unit {0})
  unfolding is_fatal
  connect = do is_fatal (env.dial (contact_string conf.broker)); print (line "Connected to Zeebe.")

  unfoldable pub create_task : Context → Run X (Unit {0})
  unfolding load_command_yaml connect send_task is_fatal print_data
  create_task c = do
    (task, e) ← load_command_yaml env env.yaml_task c.first_arg zero_task
    is_fatal e
    connect
    (response, e) ← send_task env (c.string_flag "topic") task
    is_fatal e
    print (line "Success. Received response:")
    print_data response

  unfoldable pub create_workflow_instance : Context → Run X (Unit {0})
  unfolding load_command_yaml connect send_workflow_instance is_fatal print_data
  create_workflow_instance c = do
    (workflow_instance, e) ←
        load_command_yaml env env.yaml_workflow_instance c.first_arg zero_workflow_instance
    is_fatal e
    connect
    (response, e) ← send_workflow_instance env (c.string_flag "topic") workflow_instance
    is_fatal e
    print (line "Success. Received response:")
    print_data response

  unfoldable pub deploy : Context → Run X (Unit {0})
  unfolding load_file connect send_deployment is_fatal print_state
  deploy c = do
    (content, e) ← load_file env c.first_arg
    is_fatal e
    let deployment : Deployment = record { state = "CREATE_DEPLOYMENT"; bpmn_xml = content }
    connect
    (response, e) ← send_deployment env (c.string_flag "topic") deployment
    is_fatal e
    print_state response

  unfoldable pub open_action : List (Message (Data X)) → Context → Run X (Unit {0})
  unfolding connect open_subscription
  open_action messages c = do
    connect
    open_subscription env messages (c.string_flag "topic") (int32 (c.int64_flag "partition-id"))
        (c.string_flag "lock-owner") (c.string_flag "task-type")

-- A flag: its names, its default, and the variable that overrides it.
pub data Flag : Type 0 where
  string_flag : String → String → String → Flag
  int64_flag : String → ℤ → String → Flag

pub record CommandSpec (X : Type 0) : Type 0 where
  pub name : String
  pub alias : String
  pub flags : List Flag
  pub action : Config → Context → Run X (Unit {0})

abbrev pub topic_flag : Flag
topic_flag = string_flag "topic, t" "default-topic" "ZB_TOPIC_NAME"

abbrev pub config_flag : Flag
config_flag = string_flag "config, cfg" "/etc/zeebe/config.toml" "ZBC_CONFIG"

-- `messages` are those that arrive on the channel of open.
unfoldable pub commands :
    {X : Type 0} → Environment X → List (Message (Data X)) → List (CommandSpec X)
unfolding create_task create_workflow_instance deploy open_action
commands env messages =
    record { name = "create-task"; alias = "t"; flags = topic_flag ∷ []; action = create_task env }
    ∷ record {
      name = "create-workflow-instance";
      alias = "wf";
      flags = topic_flag ∷ [];
      action = create_workflow_instance env;
    }
    ∷ record { name = "deploy"; alias = "d"; flags = topic_flag ∷ []; action = deploy env }
    ∷ record {
      name = "open";
      alias = "n";
      flags =
          topic_flag
          ∷ int64_flag "partition-id, p" (pos 0) "ZB_PARTITION_ID"
          ∷ string_flag "lock-owner, l" "zbc" "ZB_LOCK_OWNER"
          ∷ string_flag "task-type, tt" "foo" "ZB_TASK_TYPE"
          ∷ [];
      action = λ conf. open_action env conf messages;
    }
    ∷ []

abbrev pub zero_config : Config
zero_config = record { version = ""; broker = record { address = ""; port = "" } }

-- The Before function, with the value of the flag config, and then the action.
unfoldable pub run_command :
    {X : Type 0} → Environment X → CommandSpec X → String → Context → Run X (Unit {0})
unfolding load_config
run_command env command config_path c = do
  conf ← load_config env config_path zero_config
  print (line (config_string conf))
  command.action conf c
