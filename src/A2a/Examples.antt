-- ===== src/A2a/Examples.antt =====
-- Tasks of sovereign-a2a at concrete values.
use sovereign_stack.Base.{
  ◌≡◌, inr, refl, ite, none, some, [], ◌∷◌, Text_discrete, text, contains_text, starts_with, lookup,
}
use sovereign_stack.A2a.Router.{
  Tasks, A2aMessage, TaskSendParams, text_part, submitted, completed, canceled, get_task, new_task,
}
use sovereign_stack.A2a.Dispatch.{absent, skill_of, first_text, dispatch_task}
use sovereign_stack.A2a.States.{state_of, replaced}
use sovereign_stack.A2a.Tasks.{
  final, settled, IsCancellation, dispatch_task-final, handle_task_cancel-IsCancellation,
}
use sovereign_stack.A2a.Interleaved.{IsRaced, canceled_is_overwritten}

abbrev message : A2aMessage
message = record { role = text "user"; parts = text_part (text "Capture this") ∷ [] }

abbrev params : TaskSendParams
params = record { id = some (text "t1"); session_id = none; message = message; metadata = [] }

abbrev tasks : Tasks
tasks = (text "t1", new_task (text "t1") params 0) ∷ []

dispatch_task-final_example :
    state_of (dispatch_task absent tasks (text "t1") message 5 6) (text "t1")
    ≡ ite
        (Text_discrete (text "t1") (text "t1"))
        (replaced (final absent (skill_of (first_text message.parts))) (state_of tasks (text "t1")))
        (state_of tasks (text "t1"))
dispatch_task-final_example = dispatch_task-final absent tasks (text "t1") (text "t1") message 5 6

handle_task_cancel-IsCancellation_example : IsCancellation tasks (text "t1") 1
handle_task_cancel-IsCancellation_example = handle_task_cancel-IsCancellation tasks (text "t1") 1

still_submitted : state_of tasks (text "t1") ≡ some submitted
unfolding get_task lookup Text_discrete
still_submitted = refl

-- A dispatch without a host completes the task that was canceled between its steps.
completes : settled absent (skill_of (first_text message.parts)) canceled ≡ completed
unfolding skill_of contains_text starts_with
completes = refl

canceled_is_overwritten_example : IsRaced absent tasks (text "t1") message 1 5 6
canceled_is_overwritten_example = canceled_is_overwritten absent tasks (text "t1") message 1 5 6 (
    (IsCancellation.allowed (handle_task_cancel-IsCancellation tasks (text "t1") 1)).1
      (inr still_submitted))
