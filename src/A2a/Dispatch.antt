-- ===== src/A2a/Dispatch.antt =====
-- sovereign-a2a/src/router.rs: `dispatch_task`, which runs a task that was submitted.
use sovereign_stack.Base.{
  ℕ, Option, none, some, List, [], ◌∷◌, ◌++◌, Text, text, contains_text, to_lowercase,
  if◌then◌else◌,
}
use sovereign_stack.A2a.Router.{
  Tasks, A2aMessage, Part, Artifact, text_part, working, failed, update_task_state, complete_task,
}

-- the first text part of a message
abbrev pub first_text : List Part → Text
first_text [] = []
first_text (text_part t ∷ parts) = t
first_text (_ ∷ parts) = first_text parts

pub data Skill : Type 0 where
  capture receipt : Skill

-- Which skill a text asks for. Lowering only the ASCII letters decides the same: no other character
-- has a letter of the two words as its lower case.
unfoldable pub skill_of : Text → Option Skill
unfolding contains_text
skill_of t =
    let text_lower = to_lowercase t in
    if contains_text (text "capture") text_lower
    then some capture
    else if contains_text (text "receipt") text_lower
    then some receipt
    else none

abbrev pub notice : Skill → Artifact
notice capture = record {
  name = text "notice";
  parts =
      text_part
        (text "Capture acknowledged. Wire A2A dispatch_tx to sovereign-node for live execution.")
      ∷ [];
  index = 0 ∷ [];
}
notice receipt = record {
  name = text "receipts";
  parts =
      text_part (text "Receipt query acknowledged. Wire to receipt_store for live results.") ∷ [];
  index = 0 ∷ [];
}

-- `dispatch_tx`: none, a channel whose receiver is gone, or one that takes the request
pub data Channel : Type 0 where
  absent closed attached : Channel

-- the host node has the task once it is sent
abbrev pub hand_over : Channel → Tasks → Text → Skill → ℕ → Tasks
hand_over attached tasks task_id skill now = tasks
hand_over _ tasks task_id skill now = complete_task tasks task_id (notice skill ∷ []) now

-- The first update of a dispatch, a locked step of its own.
unfoldable pub start_dispatch : Tasks → Text → ℕ → Tasks
unfolding update_task_state
start_dispatch tasks task_id now = update_task_state tasks task_id working none now

-- What comes after it: another locked step, or the request to the host.
unfoldable pub finish_dispatch : Channel → Tasks → Text → A2aMessage → ℕ → Tasks
unfolding update_task_state complete_task skill_of
finish_dispatch channel tasks task_id message now =
    let t = first_text message.parts in
    elim (skill_of t) [
      | none ↦
          update_task_state tasks task_id failed
            (some (text "Unrecognized skill request: '" ++ (t ++ text "'"))) now
      | some skill ↦ hand_over channel tasks task_id skill now
    ]

-- The two steps with no other between them.
unfoldable pub dispatch_task : Channel → Tasks → Text → A2aMessage → (now later : ℕ) → Tasks
unfolding start_dispatch finish_dispatch
dispatch_task channel tasks task_id message now later =
    finish_dispatch channel (start_dispatch tasks task_id now) task_id message later
