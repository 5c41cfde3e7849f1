-- ===== src/A2a/States.antt =====
-- The states of the tasks in the table of sovereign-a2a/src/router.rs, and what its updates do to them.
use sovereign_stack.Base.{
  ℕ, ◌≡◌, refl, ap, ◌∙◌, ite, Option, none, some, List, Text, Text_discrete, lookup, map_option,
  lookup-modify,
}
use sovereign_stack.A2a.Router.{
  Tasks, TaskState, A2aTask, Artifact, completed, get_task, update_task_state, complete_task,
}

abbrev pub status_of : Option A2aTask → Option TaskState
status_of none = none
status_of (some task) = some task.status.state

-- The state of a task, if it is there.
abbrev pub state_of : Tasks → Text → Option TaskState
state_of tasks id = status_of (get_task tasks id)

-- A state put in the place of another, if there is one.
abbrev pub replaced : TaskState → Option TaskState → Option TaskState
replaced state none = none
replaced state (some _) = some state

status-modified :
    {P : Type 0} (d : Dec P) (f : A2aTask → A2aTask) (state : TaskState) (o : Option A2aTask)
    → ((task : A2aTask) → (f task).status.state ≡ state)
    → status_of (ite d (map_option Text_discrete f o) o)
      ≡ ite d (replaced state (status_of o)) (status_of o)
status-modified (yes p) f state none h = refl
status-modified (yes p) f state (some task) h = ap some (h task)
status-modified (no p) f state o h = refl

pub state_of-update :
    (tasks : Tasks) (id j : Text) (state : TaskState) (message : Option Text) (now : ℕ)
    → state_of (update_task_state tasks id state message now) j
      ≡ ite (Text_discrete id j) (replaced state (state_of tasks j)) (state_of tasks j)
unfolding get_task update_task_state
state_of-update tasks id j state message now =
    ap status_of (lookup-modify Text_discrete id j _ tasks)
    ∙ status-modified (Text_discrete id j) _ state (lookup Text_discrete j tasks) (λ task. refl)

pub state_of_complete :
    (tasks : Tasks) (id j : Text) (artifacts : List Artifact) (now : ℕ)
    → state_of (complete_task tasks id artifacts now) j
      ≡ ite (Text_discrete id j) (replaced completed (state_of tasks j)) (state_of tasks j)
unfolding get_task complete_task
state_of_complete tasks id j artifacts now =
    ap status_of (lookup-modify Text_discrete id j _ tasks)
    ∙ status-modified (Text_discrete id j) _ completed (lookup Text_discrete j tasks) (λ task. refl)

pub ite_refl : {A : Type 0} {k : Text} (d : Dec (k ≡ k)) (a b : A) → ite d a b ≡ a
ite_refl (yes p) a b = refl
ite_refl (no p) a b = absurd (p refl)
