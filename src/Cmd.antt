-- ===== src/Cmd.antt =====
-- cmd/main.go: zbctl. An action is a run that prints lines and ends well, or by an exit or a panic.
-- The files, the YAML and TOML decoders, the dialling and what a call of Responder ends with are
-- parameters. The cli package splits the command line, and gives an action its context.
pub mod Printing
pub mod Actions
pub mod Laws
pub mod Events
use zbc_go.Common.{pos, ℕ, ℤ, String, List, [], ◌∷◌, ◌^◌, Option, none, some, if◌then◌else◌, ◌==◌}
use zbc_go.Wire.{Bytes, Error, Outcome, ok, err, panic, resource_not_found}
use zbc_go.Wire.Text.{string_bytes}
use zbc_go.Wire.{fatal_exit}
use zbc_go.Wire.Outcomes.{deref}
use zbc_go.Message.{Message}
use zbc_go.Sbe.ExecuteCommandRequest.{ExecuteCommandRequest}
use zbc_go.Request.Values.{Data}
use zbc_go.Request.{Command, Task, WorkflowInstance, Deployment, TaskSubscription}
use zbc_go.Request.{new_task_message, new_workflow_message, new_deployment_message}
use zbc_go.Client.Calls.{call_responder, task_consumer}
use zbc_go.Cmd.Printing.{
  Run, ◌>>=◌, ◌>>◌, return, print, lift, line, error_line, event_line, is_fatal, try,
}
use Prim.Native.String as Native

pub record Contact : Type 0 where
  pub address : String
  pub port : String

abbrev pub contact_string : Contact → String
contact_string c = Native.◌++◌ c.address (Native.◌++◌ ":" c.port)

pub record Config : Type 0 where
  pub version : String
  pub broker : Contact

abbrev pub config_string : Config → String
config_string c =
    Native.◌++◌ "version: "
      (Native.◌++◌ c.version (Native.◌++◌ "\tBroker: " (contact_string c.broker)))

-- What the program calls that is not its own.
pub record Environment (X : Type 0) : Type 0 where
  -- filepath.Abs, whose error is dropped, and ioutil.ReadFile
  pub abs : String → String
  pub read_file : String → Bytes × Option Error
  -- yaml.Unmarshal, which writes to what it is given, and toml.DecodeFile
  pub yaml_task : Bytes → Task X → Task X × Option Error
  pub yaml_workflow_instance : Bytes → WorkflowInstance X → WorkflowInstance X × Option Error
  pub toml : String → Config → Config × Option Error
  -- the error of NewClient
  pub dial : String → Option Error
  pub marshal : Command X → Option Bytes
  pub drawn : ℕ
  pub answer : Message (Data X) → Outcome (Message (Data X))

-- The request that each command fills.
abbrev pub empty_request : Bytes → ExecuteCommandRequest
empty_request topic_name = record {
  partition_id = 0;
  position = 0;
  key = 0;
  event_type = 0;
  topic_name = topic_name;
  command = [];
}

abbrev pub task_subscription : String → ℤ → String → String → TaskSubscription
task_subscription topic pid lo task_type = record {
  subscriber_key = 0;
  topic_name = topic;
  partition_id = pid;
  task_type = task_type;
  lock_duration = 300000;
  lock_owner = lo;
  credits = pos 32;
}

-- log.Fatalln
unfoldable pub fatal_line : {X : Type 0} → String → Run X (Unit {0})
fatal_line s = (line s ∷ [], panic fatal_exit)

-- The loop of openSubscription over the messages that arrive, after which it waits.
unfoldable pub print_events : {X : Type 0} → List (Message (Data X)) → Run X (Unit {0})
print_events [] = return tt
print_events (message ∷ messages) = do
  d ← lift (deref message.payload)
  print (event_line d)
  print_events messages

module _ {X : Type 0} (env : Environment X) where
  unfoldable pub load_file : String → Run X (Bytes × Option Error)
  load_file path = do
    print (line (Native.◌++◌ "Loading resource at " path))
    return (
        if Native.len path == 0
        then ([], some resource_not_found)
        else env.read_file (env.abs path))

  -- The error of loadFile is dropped.
  unfoldable pub load_command_yaml :
      {C : Type 0} → (Bytes → C → C × Option Error) → String → C → Run X (C × Option Error)
  unfolding load_file
  load_command_yaml unmarshal path command = do
    (yaml_file, _) ← load_file path
    return (unmarshal yaml_file command)

  unfoldable pub load_config : String → Config → Run X Config
  unfolding fatal_line
  load_config path c =
      let (conf, e) = env.toml path c in
      elim e [
        | none ↦ return conf
        | some _ ↦ do
          print (
              line (
                Native.◌++◌
                  "Reading configuration failed. Expecting to found configuration file at " path))
          print (
              line "HINT: Configuration file is not in place. Try setting configuration path with:")
          fatal_line " zbctl --config <path to config.toml>"
          return conf
      ]

  -- The error of Responder is printed, and returned with the nil message.
  unfoldable pub send_request :
      Option (Message (Data X)) → Run X (Option (Message (Data X)) × Option Error)
  unfolding try
  send_request command_request = do
    (response, e) ← try (call_responder env.answer command_request)
    elim e [
      | some x ↦ print (error_line x) >> return (none, some x)
      | none ↦ return (response, none)
    ]

  -- The topic is not used.
  unfoldable pub send_task : String → Task X → Run X (Option (Message (Data X)) × Option Error)
  unfolding send_request new_task_message
  send_task topic m =
      let (command_request, _, _) =
        new_task_message env.marshal env.drawn (empty_request (string_bytes "default-topic")) m in
      send_request command_request

  unfoldable pub send_workflow_instance :
      String → WorkflowInstance X → Run X (Option (Message (Data X)) × Option Error)
  unfolding send_request new_workflow_message
  send_workflow_instance topic m =
      let (command_request, _, _) =
        new_workflow_message env.marshal env.drawn (empty_request (string_bytes topic)) m in
      send_request command_request

  unfoldable pub send_deployment :
      String → Deployment → Run X (Option (Message (Data X)) × Option Error)
  unfolding send_request new_deployment_message
  send_deployment topic m =
      let (command_request, _) =
        new_deployment_message env.marshal env.drawn (empty_request (string_bytes topic)) m in
      send_request command_request

  unfoldable pub open_subscription :
      List (Message (Data X)) → String → ℤ → String → String → Run X (Unit {0})
  unfolding try is_fatal task_consumer print_events
  open_subscription messages topic pid lo task_type = do
    (_, e) ←
        try (
          task_consumer env.answer env.marshal env.drawn (task_subscription topic pid lo task_type))
    is_fatal e
    print (line "Waiting for events ....")
    print_events messages
