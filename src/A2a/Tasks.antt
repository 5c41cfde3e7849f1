-- ===== src/A2a/Tasks.antt =====
-- The life of a task in sovereign-a2a/src/router.rs.
use sovereign_stack.Base.{
  ℕ, ◌≡◌, ◌≢◌, ◌↔◌, ◌⊎◌, refl, sym, ap, ◌∙◌, inl, inr, ite, true, Bool-cases, Option, none, some,
  Option-cases, [], ◌∷◌, ◌++◌, Text, Text_discrete, lookup-insert_same, lookup-insert_other, Result,
  ok, err, text,
}
use sovereign_stack.A2a.Router.{
  Tasks, TaskState, A2aTask, A2aMessage, A2aError, TaskSendParams, submitted, working, completed,
  failed, canceled, get_task, insert_task, update_task_state, handle_task_submit, handle_task_get,
  handle_task_cancel, check_cancelable, cancel_task, is_cancelable, task_not_found, new_task,
  task_id_of,
}
use sovereign_stack.A2a.Dispatch.{
  Channel, Skill, absent, closed, attached, skill_of, first_text, start_dispatch, finish_dispatch,
  dispatch_task, hand_over, notice,
}
use sovereign_stack.A2a.States.{
  status_of, state_of, replaced, state_of-update, state_of_complete, ite_refl,
}

-- Where a dispatch leaves its task.
abbrev pub final : Channel → Option Skill → TaskState
final channel none = failed
final attached (some skill) = working
final _ (some skill) = completed

-- Where the second step of a dispatch leaves its task: a task that the host takes stays as it is.
abbrev pub settled : Channel → Option Skill → TaskState → TaskState
settled channel none state = failed
settled attached (some skill) state = state
settled _ (some skill) state = completed

abbrev pub settled_option : Channel → Option Skill → Option TaskState → Option TaskState
settled_option channel skill none = none
settled_option channel skill (some state) = some (settled channel skill state)

settled_constant :
    {P : Type 0} (d : Dec P) (channel : Channel) (skill : Option Skill) (state : TaskState)
    (o : Option TaskState)
    → ((s : TaskState) → settled channel skill s ≡ state)
    → ite d (replaced state o) o ≡ ite d (settled_option channel skill o) o
settled_constant (yes p) channel skill state none h = refl
settled_constant (yes p) channel skill state (some s) h = ap some (sym (h s))
settled_constant (no p) channel skill state o h = refl

settled_host :
    {P : Type 0} (d : Dec P) (skill : Skill) (o : Option TaskState)
    → o ≡ ite d (settled_option attached (some skill) o) o
settled_host (yes p) skill none = refl
settled_host (yes p) skill (some s) = refl
settled_host (no p) skill o = refl

-- The second step of a dispatch fails its task if the message asks for no skill, leaves it as it
-- is if the host takes it and completes it otherwise; no other task changes its state.
pub finish_dispatch-settled :
    (channel : Channel) (tasks : Tasks) (id j : Text) (message : A2aMessage) (now : ℕ)
    → state_of (finish_dispatch channel tasks id message now) j
      ≡ ite
          (Text_discrete id j)
          (settled_option channel (skill_of (first_text message.parts)) (state_of tasks j))
          (state_of tasks j)
unfolding finish_dispatch
finish_dispatch-settled channel tasks id j message now =
    go channel (skill_of (first_text message.parts))
  where
    why : Option Text
    why = some (text "Unrecognized skill request: '" ++ (first_text message.parts ++ text "'"))

    go :
        (channel : Channel) (o : Option Skill)
        → state_of
            (elim o [
              | none ↦ update_task_state tasks id failed why now
              | some skill ↦ hand_over channel tasks id skill now
            ])
            j
          ≡ ite
              (Text_discrete id j)
              (settled_option channel o (state_of tasks j))
              (state_of tasks j)
    go channel none =
        state_of-update tasks id j failed why now
        ∙ settled_constant (Text_discrete id j) channel none failed (state_of tasks j) (λ s. refl)
    go attached (some skill) = settled_host (Text_discrete id j) skill (state_of tasks j)
    go absent (some skill) =
        state_of_complete tasks id j (notice skill ∷ []) now
        ∙ settled_constant (Text_discrete id j) absent (some skill) completed (state_of tasks j)
            (λ s. refl)
    go closed (some skill) =
        state_of_complete tasks id j (notice skill ∷ []) now
        ∙ settled_constant (Text_discrete id j) closed (some skill) completed (state_of tasks j)
            (λ s. refl)

settled-working :
    (channel : Channel) (skill : Option Skill) → settled channel skill working ≡ final channel skill
settled-working channel none = refl
settled-working attached (some skill) = refl
settled-working absent (some skill) = refl
settled-working closed (some skill) = refl

both_steps :
    {P : Type 0} (d : Dec P) (channel : Channel) (skill : Option Skill) (o : Option TaskState)
    → ite d
        (settled_option channel skill (ite d (replaced working o) o))
        (ite d (replaced working o) o)
      ≡ ite d (replaced (final channel skill) o) o
both_steps (yes p) channel skill none = refl
both_steps (yes p) channel skill (some s) = ap some (settled-working channel skill)
both_steps (no p) channel skill o = refl

-- A dispatch leaves its task, whatever its state was, failed if the message asks for no skill,
-- working if the host takes it and completed otherwise; no other task changes its state, and none
-- comes into being.
pub dispatch_task-final :
    (channel : Channel) (tasks : Tasks) (id j : Text) (message : A2aMessage) (now later : ℕ)
    → state_of (dispatch_task channel tasks id message now later) j
      ≡ ite
          (Text_discrete id j)
          (replaced (final channel (skill_of (first_text message.parts))) (state_of tasks j))
          (state_of tasks j)
unfolding dispatch_task start_dispatch
dispatch_task-final channel tasks id j message now later =
    let skill = skill_of (first_text message.parts) in
    finish_dispatch-settled channel (start_dispatch tasks id now) id j message later
    ∙ ap (λ o. ite (Text_discrete id j) (settled_option channel skill o) o)
        (state_of-update tasks id j working none now)
    ∙ both_steps (Text_discrete id j) channel skill (state_of tasks j)

cancelable_iff :
    (s : TaskState)
    → (is_cancelable s ≡ true) ↔ (
        (◌≡◌ {A = Option TaskState} (some s) (some working))
        ⊎ (◌≡◌ {A = Option TaskState} (some s) (some submitted)))
cancelable_iff working = ((λ h. inl refl), λ v. refl)
cancelable_iff submitted = ((λ h. inr refl), λ v. refl)
cancelable_iff _ = ((λ h. cc), λ v. elim v [ inl x ↦ cc x | inr x ↦ cc x ])

-- What a cancellation does.
pub record IsCancellation (tasks : Tasks) (id : Text) (now : ℕ) : Type 0 where
  pub allowed :
      ((handle_task_cancel tasks id now).1 ≡ ok id)
      ↔ ((state_of tasks id ≡ some working) ⊎ (state_of tasks id ≡ some submitted))
  pub done :
      (handle_task_cancel tasks id now).1 ≡ ok id
      → state_of (handle_task_cancel tasks id now).0 id ≡ some canceled
  pub missing :
      ((handle_task_cancel tasks id now).1 ≡ err (task_not_found id)) ↔ (get_task tasks id ≡ none)
  pub refused :
      (e : A2aError)
      → (handle_task_cancel tasks id now).1 ≡ err e
      → (handle_task_cancel tasks id now).0 ≡ tasks

-- A cancellation succeeds exactly for a task that is working or submitted, and then leaves it
-- canceled; it answers that the task is not found exactly if there is none; and an error changes
-- nothing.
pub handle_task_cancel-IsCancellation :
    (tasks : Tasks) (id : Text) (now : ℕ) → IsCancellation tasks id now
unfolding handle_task_cancel check_cancelable cancel_task update_task_state
handle_task_cancel-IsCancellation tasks id now = elim (Option-cases (get_task tasks id)) [
  | inl e ↦ record {
    allowed =
        rw (handle_task_cancel, check_cancelable, e)
          ((λ h. cc), λ v. elim v [ inl x ↦ cc x | inr x ↦ cc x ]);
    done = rw (handle_task_cancel, check_cancelable, e) (λ h. cc);
    missing = rw (handle_task_cancel, check_cancelable, e) ((λ h. refl), λ h. refl);
    refused = rw (handle_task_cancel, check_cancelable, e) (λ x h. refl);
  }
  | inr (task, e) ↦ elim (Bool-cases (is_cancelable task.status.state)) [
    | inl can ↦ record {
      allowed =
          rw (handle_task_cancel, check_cancelable, e, can)
            ((λ h. (cancelable_iff task.status.state).0 can), λ v. refl);
      done =
          rw (handle_task_cancel, check_cancelable, e, can)
            (λ h.
              state_of-update tasks id id canceled (some (text "Canceled by requester")) now
              ∙ ite_refl (Text_discrete id id) _ _
              ∙ ap (λ o. replaced canceled (status_of o)) e);
      missing = rw (handle_task_cancel, check_cancelable, e, can) ((λ h. cc), λ h. cc);
      refused = rw (handle_task_cancel, check_cancelable, e, can) (λ x h. cc);
    }
    | inr cannot ↦ record {
      allowed =
          rw (handle_task_cancel, check_cancelable, e, cannot)
            ((λ h. cc), λ v. cc (cannot, (cancelable_iff task.status.state).1 v));
      done = rw (handle_task_cancel, check_cancelable, e, cannot) (λ h. cc);
      missing = rw (handle_task_cancel, check_cancelable, e, cannot) ((λ h. cc), λ h. cc);
      refused = rw (handle_task_cancel, check_cancelable, e, cannot) (λ x h. refl);
    }
  ]
]

-- After a submission the task of its id is submitted, with the message as its history and no
-- artifact, whatever task had that id before; every other task is as it was.
handle_task_submit_lem :
    (tasks : Tasks) (params : TaskSendParams) (uuid : Text) (now : ℕ)
    → let (after, task, id, message) = handle_task_submit tasks params uuid now in
      (handle_task_get after id ≡ ok task)
      × (task ≡ new_task id params now)
      × ((j : Text) → id ≢ j → get_task after j ≡ get_task tasks j)
unfolding handle_task_submit handle_task_get get_task insert_task
handle_task_submit_lem tasks params uuid now =
    let id = task_id_of params.id uuid in
    (
      ap
          (λ o. elim o as (λ o. Result A2aError A2aTask) [
            | some task ↦ ok task
            | none ↦ err (task_not_found id)
          ])
          (lookup-insert_same Text_discrete id (new_task id params now) tasks),
      refl,
      λ j other. lookup-insert_other Text_discrete id j (new_task id params now) tasks other,
    )
