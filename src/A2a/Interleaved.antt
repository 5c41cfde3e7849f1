-- ===== src/A2a/Interleaved.antt =====
-- How the locked steps of a cancellation and of a dispatch in sovereign-a2a/src/router.rs interleave.
use sovereign_stack.Base.{
  ℕ, ◌≡◌, refl, ap, ◌∙◌, inl, none, some, Option-cases, Bool-cases, Option, Text, Text_discrete, ok,
  inr, text, arith,
}
use sovereign_stack.A2a.Router.{
  Tasks, TaskState, A2aMessage, working, canceled, get_task, handle_task_cancel, check_cancelable,
  cancel_task, is_cancelable,
}
use sovereign_stack.A2a.Dispatch.{
  Channel, Skill, skill_of, first_text, start_dispatch, finish_dispatch, dispatch_task,
}
use sovereign_stack.A2a.States.{status_of, state_of, replaced, state_of-update, ite_refl}
use sovereign_stack.A2a.Tasks.{
  final, settled, settled_option, finish_dispatch-settled, dispatch_task-final, IsCancellation,
  handle_task_cancel-IsCancellation,
}

-- A task that can be canceled is there, and passes the look at it.
looked :
    (tasks : Tasks) (id : Text) (now : ℕ)
    → (handle_task_cancel tasks id now).1 ≡ ok id
    → (check_cancelable tasks id ≡ ok tt) × ((s : TaskState) × (state_of tasks id ≡ some s))
unfolding handle_task_cancel check_cancelable
looked tasks id now h = elim (Option-cases (get_task tasks id)) [
  | inl e ↦ absurd (ground (arith, e, h))
  | inr (task, e) ↦ elim (Bool-cases (is_cancelable task.status.state)) [
    | inl can ↦ (rw (check_cancelable, e, can) refl, (task.status.state, ap status_of e))
    | inr cannot ↦ absurd (ground (arith, e, cannot, h))
  ]
]

module _ (channel : Channel) (tasks : Tasks) (id : Text) (message : A2aMessage) where
  abbrev skill : Option Skill
  skill = skill_of (first_text message.parts)

  -- A cancellation of a task that can be canceled, at the three places it can have beside the
  -- dispatch of the task.
  pub record IsRaced (now later last : ℕ) : Type 0 where
    pub before :
        state_of
          (dispatch_task channel (handle_task_cancel tasks id now).0 id message later last)
          id
        ≡ some (final channel skill)
    pub between_allowed : (handle_task_cancel (start_dispatch tasks id now) id later).1 ≡ ok id
    pub between :
        state_of
          (finish_dispatch channel
            (handle_task_cancel (start_dispatch tasks id now) id later).0
            id
            message
            last)
          id
        ≡ some (settled channel skill canceled)
    pub around_allowed : check_cancelable tasks id ≡ ok tt
    pub around :
        state_of (cancel_task (dispatch_task channel tasks id message now later) id last) id
        ≡ some canceled

  started :
      (s : TaskState) (now : ℕ)
      → state_of tasks id ≡ some s
      → state_of (start_dispatch tasks id now) id ≡ some working
  unfolding start_dispatch
  started s now h =
      state_of-update tasks id id working none now
      ∙ ite_refl (Text_discrete id id) _ _
      ∙ ap (replaced working) h

  finished :
      (after : Tasks) (s : TaskState) (now : ℕ)
      → state_of after id ≡ some s
      → state_of (finish_dispatch channel after id message now) id ≡ some (settled channel skill s)
  finished after s now h =
      finish_dispatch-settled channel after id id message now
      ∙ ite_refl (Text_discrete id id) _ _
      ∙ ap (settled_option channel skill) h

  dispatched :
      (before : Tasks) (s : TaskState) (now later : ℕ)
      → state_of before id ≡ some s
      → state_of (dispatch_task channel before id message now later) id ≡ some (final channel skill)
  dispatched before s now later h =
      dispatch_task-final channel before id id message now later
      ∙ ite_refl (Text_discrete id id) _ _
      ∙ ap (replaced (final channel skill)) h

  canceled_after :
      (after : Tasks) (s : TaskState) (now : ℕ)
      → state_of after id ≡ some s
      → state_of (cancel_task after id now) id ≡ some canceled
  unfolding cancel_task
  canceled_after after s now h =
      state_of-update after id id canceled (some (text "Canceled by requester")) now
      ∙ ite_refl (Text_discrete id id) _ _
      ∙ ap (replaced canceled) h

  -- A cancellation of a task that is working or submitted does not hold against the dispatch of the
  -- task. Before the dispatch it succeeds, and the dispatch leaves the task in the state in which
  -- it would have been without it. Between the two steps of the dispatch it succeeds as well, and
  -- the second step leaves the task failed if the message asks for no skill, canceled if the host
  -- takes it and completed otherwise. And where it looks at the task before the dispatch and
  -- updates it after, it leaves the task canceled whatever the dispatch has made of it.
  pub canceled_is_overwritten :
      (now later last : ℕ) → (handle_task_cancel tasks id now).1 ≡ ok id → IsRaced now later last
  canceled_is_overwritten now later last h =
      let (look, (s, e)) = looked tasks id now h in
      let begun = start_dispatch tasks id now in
      let cancels = handle_task_cancel-IsCancellation begun id later in
      let allowed = cancels.allowed.1 (inl (started s now e)) in
      record {
        before =
            dispatched (handle_task_cancel tasks id now).0 canceled later last
              (IsCancellation.done (handle_task_cancel-IsCancellation tasks id now) h);
        between_allowed = allowed;
        between =
            finished (handle_task_cancel begun id later).0 canceled last (cancels.done allowed);
        around_allowed = look;
        around =
            canceled_after (dispatch_task channel tasks id message now later) (final channel skill)
              last (dispatched tasks s now later e);
      }
