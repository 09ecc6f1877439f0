-- ===== src/Taskboard/Verdict.antt =====
-- The context of a command, the verdict of a handler of
-- crates/room-plugin-taskboard/src/handlers.rs on the task that it has found, and the sets of
-- statuses that the handlers test for.
use room.Base.{String, Bool, true, false, Option, none, some, List, [], ◌∷◌, drop}
use room.Base.Text.{join}
use room.Taskboard.Task.{
  TaskStatus, opened, claimed, planned, in_progress, awaiting_review, review_claimed, finished,
  cancelled, LiveTask,
}
use room.Taskboard.Reply.{Reply}

-- `TeamAccess` of crates/room-protocol/src/plugin.rs
pub record TeamAccess : Type 0 where
  pub team_exists : String → Bool
  pub is_member : String → String → Bool

-- The fields of `CommandContext` that the plugin reads.
pub record CommandContext : Type 0 where
  pub params : List String
  pub sender : String
  pub host : Option String
  pub team_access : Option TeamAccess

-- `accept`: the task as it is left, the reply, and whether the reply is broadcast
pub data Verdict : Type 0 where
  refuse : Reply → Verdict
  accept : LiveTask → Reply → Bool → Verdict

abbrev pub is_status : TaskStatus → TaskStatus → Bool
is_status opened opened = true
is_status claimed claimed = true
is_status planned planned = true
is_status in_progress in_progress = true
is_status awaiting_review awaiting_review = true
is_status review_claimed review_claimed = true
is_status finished finished = true
is_status cancelled cancelled = true
is_status _ _ = false

-- Claimed, Planned, InProgress, AwaitingReview or ReviewClaimed
abbrev pub is_held : TaskStatus → Bool
is_held claimed = true
is_held planned = true
is_held in_progress = true
is_held awaiting_review = true
is_held review_claimed = true
is_held _ = false

-- Finished or Cancelled
abbrev pub is_closed : TaskStatus → Bool
is_closed finished = true
is_closed cancelled = true
is_closed _ = false

-- InProgress, AwaitingReview or ReviewClaimed
abbrev pub is_started : TaskStatus → Bool
is_started in_progress = true
is_started awaiting_review = true
is_started review_claimed = true
is_started _ = false

-- The words behind the task's id, where there are any.
unfoldable pub words_after_id : List String → Option String
words_after_id params = elim (drop 2 params) [ [] ↦ none | w ∷ ws ↦ some (join " " (w ∷ ws)) ]

abbrev pub or_else {ℓ} : {A : Type ℓ} → Option A → Option A → Option A
or_else none b = b
or_else (some a) b = some a
