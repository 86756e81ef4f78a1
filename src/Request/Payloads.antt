-- ===== src/Request/Payloads.antt =====
-- NewTaskMessage, NewWorkflowMessage and NewDeploymentMessage, and the constructors side by side.
use zbc_go.Common.{ℕ, ◌^◌, ◌<◌, ◌≡◌, Option, some}
use zbc_go.Wire.{Bytes}
use zbc_go.Sbe.ExecuteCommandRequest as CommandRequest
use zbc_go.Sbe.ExecuteCommandRequest.{ExecuteCommandRequest}
use zbc_go.Sbe.ExecuteCommandRequest.Laws as CommandRequestLaws
use zbc_go.Message.{Message, command_request}
use zbc_go.Request.Values.{Data}
use zbc_go.Request.{Command, Task, task_command, WorkflowInstance, workflow_command, Deployment}
use zbc_go.Request.{deployment_command, fill_payload, TaskSubscription, subscription_command}
use zbc_go.Request.{new_task_subscription_message}
use zbc_go.Sbe.ControlMessageRequest as ControlRequest
use zbc_go.Message.{control_request}
use zbc_go.Common.{length}
use zbc_go.Request.Laws.{new_task_subscription_message-eq}
use zbc_go.Request.{new_task_message, new_workflow_message, new_deployment_message}
use zbc_go.Request.Laws.{request_message, SoundRequest, new_command_request_message-eq}

-- The request that a constructor leaves: an event type, and the serialised command.
abbrev pub filled : ExecuteCommandRequest → ℕ → Bytes → ExecuteCommandRequest
filled e kind b = record e { event_type = kind; command = b }

-- A message for a filled request, whose frame length is right.
abbrev pub Announcing :
    {X : Type 0} → ℕ → ExecuteCommandRequest → Option (Message (Data X)) → Type 0
Announcing drawn e msg =
    (size : ℕ) × (msg
      ≡ some (request_message drawn CommandRequest.message_spec size (command_request e)))
    × SoundRequest drawn CommandRequest.message_spec size (command_request e)

module _ {X : Type 0} (marshal : Command X → Option Bytes) (drawn : ℕ)
    (small : drawn < 2 ^ 64) where
  -- NewTaskMessage stores the payload `p` in the task, its own or else its serialised JSON, and the
  -- event type 0 and the serialised task `b` in the request, and returns the message of that request
  -- with the right frame length; the fields of the request and the id that is drawn fit their Go types.
  pub new_task_message-eq :
      (e : ExecuteCommandRequest) (task : Task X) (p b : Bytes)
      → fill_payload marshal drawn task.payload task.payload_json ≡ some p
      → marshal (task_command (record task { payload = some p })) ≡ some b
      → CommandRequestLaws.Fits (filled e 0 b)
      → Announcing drawn (filled e 0 b) (new_task_message marshal drawn e task).0
        × ((new_task_message marshal drawn e task).1 ≡ filled e 0 b)
        × ((new_task_message marshal drawn e task).2 ≡ record task { payload = some p })
  unfolding new_task_message
  new_task_message-eq e task p b payload known fits =
      let task' : Task X = record task { payload = some p } in
      let (size, made, sound) =
        new_command_request_message-eq marshal drawn (record e { event_type = 0 })
          (task_command task') b known fits small in
      (
        (size, rw (new_task_message, payload, made), sound),
        rw (new_task_message, payload, made),
        rw (new_task_message, payload),
      )

  -- NewWorkflowMessage does the same with a workflow instance and the event type 5, under the same
  -- conditions.
  pub new_workflow_message-eq :
      (e : ExecuteCommandRequest) (wf : WorkflowInstance X) (p b : Bytes)
      → fill_payload marshal drawn wf.payload wf.payload_json ≡ some p
      → marshal (workflow_command (record wf { payload = some p })) ≡ some b
      → CommandRequestLaws.Fits (filled e 5 b)
      → Announcing drawn (filled e 5 b) (new_workflow_message marshal drawn e wf).0
        × ((new_workflow_message marshal drawn e wf).1 ≡ filled e 5 b)
        × ((new_workflow_message marshal drawn e wf).2 ≡ record wf { payload = some p })
  unfolding new_workflow_message
  new_workflow_message-eq e wf p b payload known fits =
      let wf' : WorkflowInstance X = record wf { payload = some p } in
      let (size, made, sound) =
        new_command_request_message-eq marshal drawn (record e { event_type = 5 })
          (workflow_command wf') b known fits small in
      (
        (size, rw (new_workflow_message, payload, made), sound),
        rw (new_workflow_message, payload, made),
        rw (new_workflow_message, payload),
      )

  -- NewDeploymentMessage stores the event type 4 and the serialised deployment `b` in the request, and
  -- returns the message of that request with the right frame length; the fields of the request and the
  -- id that is drawn fit their Go types.
  pub new_deployment_message-eq :
      (e : ExecuteCommandRequest) (d : Deployment) (b : Bytes)
      → marshal (deployment_command d) ≡ some b
      → CommandRequestLaws.Fits (filled e 4 b)
      → Announcing drawn (filled e 4 b) (new_deployment_message marshal drawn e d).0
        × ((new_deployment_message marshal drawn e d).1 ≡ filled e 4 b)
  unfolding new_deployment_message
  new_deployment_message-eq e d b known fits =
      let (size, made, sound) =
        new_command_request_message-eq marshal drawn (record e { event_type = 4 })
          (deployment_command d) b known fits small in
      ((size, rw (new_deployment_message, made), sound), rw (new_deployment_message, made))

  -- NewTaskMessage, NewWorkflowMessage and NewDeploymentMessage store the event type 0, 5 or 4 and the
  -- serialised command in their request, and return the message of that request with the right frame
  -- length. The first two store the payload in the command, its own or else its serialised JSON, before
  -- they serialise it. NewTaskSubscriptionMessage returns the request ADD_TASK_SUBSCRIPTION with the
  -- serialised subscription, shorter than 2 ^ 16 bytes, and the right frame length. All this serialises,
  -- and the fields of the requests and the id that is drawn fit their Go types.
  pub commands-eq :
      (e : ExecuteCommandRequest) (task : Task X) (wf : WorkflowInstance X) (d : Deployment)
      (ts : TaskSubscription) (task_payload task_bytes wf_payload wf_bytes d_bytes ts_bytes : Bytes)
      → fill_payload marshal drawn task.payload task.payload_json ≡ some task_payload
      → marshal (task_command (record task { payload = some task_payload })) ≡ some task_bytes
      → CommandRequestLaws.Fits (filled e 0 task_bytes)
      → fill_payload marshal drawn wf.payload wf.payload_json ≡ some wf_payload
      → marshal (workflow_command (record wf { payload = some wf_payload })) ≡ some wf_bytes
      → CommandRequestLaws.Fits (filled e 5 wf_bytes)
      → marshal (deployment_command d) ≡ some d_bytes
      → CommandRequestLaws.Fits (filled e 4 d_bytes)
      → marshal (subscription_command ts) ≡ some ts_bytes
      → length ts_bytes < 2 ^ 16
      → (Announcing drawn (filled e 0 task_bytes) (new_task_message marshal drawn e task).0
          × ((new_task_message marshal drawn e task).1 ≡ filled e 0 task_bytes)
          × ((new_task_message marshal drawn e task).2
              ≡ record task { payload = some task_payload }))
        × (Announcing drawn (filled e 5 wf_bytes) (new_workflow_message marshal drawn e wf).0
            × ((new_workflow_message marshal drawn e wf).1 ≡ filled e 5 wf_bytes)
            × ((new_workflow_message marshal drawn e wf).2
                ≡ record wf { payload = some wf_payload }))
        × (Announcing drawn (filled e 4 d_bytes) (new_deployment_message marshal drawn e d).0
            × ((new_deployment_message marshal drawn e d).1 ≡ filled e 4 d_bytes))
        × ((size : ℕ) × (new_task_subscription_message marshal drawn ts
              ≡ some (
                  request_message drawn ControlRequest.message_spec size
                    (control_request (record { message_type = 0; data_bytes = ts_bytes }))))
            × SoundRequest drawn ControlRequest.message_spec size
                (control_request (record { message_type = 0; data_bytes = ts_bytes })))
  commands-eq e task wf d ts task_payload task_bytes wf_payload wf_bytes d_bytes ts_bytes h1 h2 h3
        h4 h5 h6 h7 h8 h9 h10 =
      (
        new_task_message-eq e task task_payload task_bytes h1 h2 h3,
        new_workflow_message-eq e wf wf_payload wf_bytes h4 h5 h6,
        new_deployment_message-eq e d d_bytes h7 h8,
        new_task_subscription_message-eq marshal drawn ts ts_bytes h9 h10 small,
      )
