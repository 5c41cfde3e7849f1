-- ===== src/A2a/Router.antt =====
-- sovereign-a2a/src/types.rs and router.rs: tasks, the task table and the handlers. The table is
-- passed as state, each call on it being one locked step; clock readings and UUIDs are arguments.
use sovereign_stack.Base.{
  ℕ, Bool, true, false, Option, none, some, List, [], ◌∷◌, Text, Text_discrete, text, Dict, lookup,
  insert, modify, if◌then◌else◌, Result, ok, err,
}

pub data TaskState : Type 0 where
  submitted working completed failed canceled input_required : TaskState

pub record FileContent : Type 0 where
  pub name : Text
  pub mime_type : Text
  pub bytes : Option Text
  pub uri : Option Text

pub data Part : Type 0 where
  text_part data_part : Text → Part
  file_part : FileContent → Part

pub record A2aMessage : Type 0 where
  pub role : Text
  pub parts : List Part

pub record TaskStatus : Type 0 where
  pub state : TaskState
  pub updated : ℕ
  pub message : Option A2aMessage

pub record Artifact : Type 0 where
  pub name : Text
  pub parts : List Part
  pub index : List ℕ

pub record A2aTask : Type 0 where
  pub id : Text
  pub session_id : Option Text
  pub status : TaskStatus
  pub history : List A2aMessage
  pub artifacts : List Artifact
  pub metadata : Dict Text Text

pub record TaskSendParams : Type 0 where
  pub id : Option Text
  pub session_id : Option Text
  pub message : A2aMessage
  pub metadata : Dict Text Text

abbrev pub Tasks : Type 0
Tasks = Dict Text A2aTask

unfoldable pub get_task : Tasks → Text → Option A2aTask
get_task tasks id = lookup Text_discrete id tasks

unfoldable pub insert_task : Tasks → A2aTask → Tasks
insert_task tasks task = insert Text_discrete task.id task tasks

-- `message.map(|m| A2aMessage { … })`
abbrev pub agent_message : Option Text → Option A2aMessage
agent_message none = none
agent_message (some m) = some (record { role = text "agent"; parts = text_part m ∷ [] })

unfoldable pub update_task_state : Tasks → Text → TaskState → Option Text → ℕ → Tasks
update_task_state tasks id state message now =
    modify Text_discrete id
      (λ task. record task {
        status = record { state = state; updated = now; message = agent_message message };
      })
      tasks

unfoldable pub complete_task : Tasks → Text → List Artifact → ℕ → Tasks
complete_task tasks id artifacts now =
    modify Text_discrete id
      (λ task. record task {
        status = record { state = completed; updated = now; message = none };
        artifacts = artifacts;
      })
      tasks

-- `params.id.unwrap_or_else(…)`
abbrev pub task_id_of : Option Text → Text → Text
task_id_of none uuid = uuid
task_id_of (some id) uuid = id

abbrev pub new_task : Text → TaskSendParams → ℕ → A2aTask
new_task task_id params now = record {
  id = task_id;
  session_id = params.session_id;
  status = record { state = submitted; updated = now; message = none };
  history = params.message ∷ [];
  artifacts = [];
  metadata = params.metadata;
}

-- The new table, the answer and the dispatch that is spawned, as its task id and message.
unfoldable pub handle_task_submit :
    Tasks → TaskSendParams → Text → ℕ → Tasks × A2aTask × Text × A2aMessage
unfolding insert_task
handle_task_submit tasks params uuid now =
    let task_id = task_id_of params.id uuid in
    let task = new_task task_id params now in
    (insert_task tasks task, task, task_id, params.message)

-- The HTTP errors: 404 and 409.
pub data A2aError : Type 0 where
  task_not_found : Text → A2aError
  task_not_cancelable : A2aError

unfoldable pub handle_task_get : Tasks → Text → Result A2aError A2aTask
unfolding get_task
handle_task_get tasks id = elim (get_task tasks id) [
  | some task ↦ ok task
  | none ↦ err (task_not_found id)
]

abbrev pub is_cancelable : TaskState → Bool
is_cancelable working = true
is_cancelable submitted = true
is_cancelable _ = false

-- The look at the task, a locked step of its own.
unfoldable pub check_cancelable : Tasks → Text → Result A2aError (Unit {0})
unfolding get_task
check_cancelable tasks id = elim (get_task tasks id) [
  | none ↦ err (task_not_found id)
  | some task ↦ if is_cancelable task.status.state then ok tt else err task_not_cancelable
]

-- The update after it, another locked step.
unfoldable pub cancel_task : Tasks → Text → ℕ → Tasks
unfolding update_task_state
cancel_task tasks id now =
    update_task_state tasks id canceled (some (text "Canceled by requester")) now

-- The two steps with no other between them.
unfoldable pub handle_task_cancel : Tasks → Text → ℕ → Tasks × Result A2aError Text
unfolding check_cancelable cancel_task
handle_task_cancel tasks id now = elim (check_cancelable tasks id) [
  | ok _ ↦ (cancel_task tasks id now, ok id)
  | err e ↦ (tasks, err e)
]
