-- ===== src/Taskboard/Moves.antt =====
-- The lifecycle of a task as the subcommands' descriptions give it (`taskboard_subcommands` of
-- crates/room-plugin-taskboard/src/lib.rs, docs/taskboard.md): who may move it, from which status,
-- and to which. The verdicts of the handlers stay within it.
use room.Base.{
  String, ◌≡◌, ◌⊎◌, Bool, true, false, Option, none, some, arith, is_some, is_some_of→eq, ==_iff,
}
use room.Taskboard.Task.{
  opened, claimed, planned, in_progress, awaiting_review, review_claimed, finished, cancelled,
  LiveTask, Env,
}
use room.Taskboard.Verdict.{CommandContext, Verdict, refuse, accept, is_held, is_started, is_closed}
use room.Taskboard.Work.{claim_task, plan_task, update_task, release_task, assign_task}
use room.Taskboard.Review.{
  approve_task, request_review_task, review_claim_task, reject_task, finish_task, cancel_task,
}

module _ (ctx : CommandContext) where
  abbrev pub IsHost : Type 0
  IsHost = ctx.host ≡ some ctx.sender

  abbrev pub IsPoster : LiveTask → Type 0
  IsPoster lt = lt.task.posted_by ≡ ctx.sender

  abbrev pub IsAssignee : LiveTask → Type 0
  IsAssignee lt = lt.task.assigned_to ≡ some ctx.sender

  abbrev pub IsReviewer : LiveTask → Type 0
  IsReviewer lt = lt.task.reviewer ≡ some ctx.sender

-- A task of a team goes to its members only, and where teams are not known to nobody.
abbrev pub may_take : CommandContext → Option String → String → Bool
may_take ctx none user = true
may_take ctx (some team) user = elim ctx.team_access [
  | none ↦ false
  | some ta ↦ ta.is_member team user
]

-- There is an assignee, and it may take the task.
abbrev pub may_hold : CommandContext → Option String → Option String → Bool
may_hold ctx team none = false
may_hold ctx team (some user) = may_take ctx team user

-- What no command changes in a task.
pub record SameIdentity (a b : LiveTask) : Type 0 where
  pub id : b.task.id ≡ a.task.id
  pub description : b.task.description ≡ a.task.description
  pub posted_by : b.task.posted_by ≡ a.task.posted_by
  pub posted_at : b.task.posted_at ≡ a.task.posted_at
  pub team : b.task.team ≡ a.task.team

pub data Move (ctx : CommandContext) (a b : LiveTask) : Type 0 where
  claim :
      may_take ctx a.task.team ctx.sender ≡ true
      → a.task.status ≡ opened
      → b.task.status ≡ claimed
      → b.task.assigned_to ≡ some ctx.sender
      → Move ctx a b
  assign :
      IsPoster ctx a ⊎ IsHost ctx
      → may_hold ctx a.task.team b.task.assigned_to ≡ true
      → a.task.status ≡ opened
      → b.task.status ≡ claimed
      → Move ctx a b
  plan :
      IsAssignee ctx a
      → (a.task.status ≡ claimed) ⊎ (a.task.status ≡ planned)
      → b.task.status ≡ planned
      → is_some b.task.plan ≡ true
      → Move ctx a b
  approve :
      IsPoster ctx a ⊎ IsHost ctx
      → a.task.status ≡ planned
      → b.task.status ≡ in_progress
      → b.task.approved_by ≡ some ctx.sender
      → Move ctx a b
  update :
      IsAssignee ctx a → is_held a.task.status ≡ true → b.task.status ≡ a.task.status → Move ctx a b
  release :
      IsAssignee ctx a ⊎ IsHost ctx
      → is_held a.task.status ≡ true
      → b.task.status ≡ opened
      → b.task.assigned_to ≡ none
      → Move ctx a b
  request_review :
      IsAssignee ctx a
      → a.task.status ≡ in_progress
      → b.task.status ≡ awaiting_review
      → Move ctx a b
  claim_review :
      a.task.reviewer ≡ none
      → a.task.status ≡ awaiting_review
      → b.task.status ≡ review_claimed
      → b.task.reviewer ≡ some ctx.sender
      → Move ctx a b
  accept_review :
      IsReviewer ctx a ⊎ IsHost ctx
      → a.task.status ≡ review_claimed
      → b.task.status ≡ finished
      → b.task.approved_by ≡ some ctx.sender
      → Move ctx a b
  reject :
      IsReviewer ctx a ⊎ IsHost ctx
      → a.task.status ≡ review_claimed
      → b.task.status ≡ in_progress
      → b.task.approved_by ≡ none
      → b.task.reviewer ≡ none
      → Move ctx a b
  finish :
      IsAssignee ctx a → is_started a.task.status ≡ true → b.task.status ≡ finished → Move ctx a b
  cancel :
      IsPoster ctx a ⊎ (IsAssignee ctx a ⊎ IsHost ctx)
      → is_closed a.task.status ≡ false
      → b.task.status ≡ cancelled
      → Move ctx a b

-- An accepted verdict is a move, and keeps the task's identity.
abbrev pub IsLawful : CommandContext → LiveTask → Verdict → Type 0
IsLawful ctx a (refuse r) = Unit
IsLawful ctx a (accept b r broadcast) = Move ctx a b × SameIdentity a b

module _ (env : Env) (ctx : CommandContext) (id : String) (lt : LiveTask) where
  pub finish_task-IsLawful : IsLawful ctx lt (finish_task env ctx id lt)
  unfolding finish_task
  finish_task-IsLawful = ground (arith, is_some_of→eq lt.task.assigned_to ctx.sender)

  pub cancel_task-IsLawful : (reason : String) → IsLawful ctx lt (cancel_task env ctx id reason lt)
  unfolding cancel_task
  cancel_task-IsLawful reason = ground (
    arith,
    is_some_of→eq lt.task.assigned_to ctx.sender,
    is_some_of→eq ctx.host ctx.sender,
    ==_iff lt.task.posted_by ctx.sender,
  )

  pub reject_task-IsLawful :
      (reason : Option String) → IsLawful ctx lt (reject_task env ctx id reason lt)
  unfolding reject_task
  reject_task-IsLawful reason =
      ground (arith, is_some_of→eq lt.task.reviewer ctx.sender, is_some_of→eq ctx.host ctx.sender)

  pub review_claim_task-IsLawful : IsLawful ctx lt (review_claim_task env ctx id lt)
  unfolding review_claim_task
  review_claim_task-IsLawful = ground (arith, is_some_of→eq lt.task.reviewer ctx.sender)

  pub request_review_task-IsLawful : IsLawful ctx lt (request_review_task env ctx id lt)
  unfolding request_review_task
  request_review_task-IsLawful = ground (arith, is_some_of→eq lt.task.assigned_to ctx.sender)

  pub approve_task-IsLawful : IsLawful ctx lt (approve_task env ctx id lt)
  unfolding approve_task
  approve_task-IsLawful = ground (
    arith,
    is_some_of→eq lt.task.reviewer ctx.sender,
    is_some_of→eq ctx.host ctx.sender,
    ==_iff lt.task.posted_by ctx.sender,
  )

  pub release_task-IsLawful : IsLawful ctx lt (release_task ctx id lt)
  unfolding release_task
  release_task-IsLawful =
      ground
        (arith, is_some_of→eq lt.task.assigned_to ctx.sender, is_some_of→eq ctx.host ctx.sender)

  pub update_task-IsLawful :
      (notes : Option String) → IsLawful ctx lt (update_task env ctx id notes lt)
  unfolding update_task
  update_task-IsLawful notes = ground (arith, is_some_of→eq lt.task.assigned_to ctx.sender)

  pub plan_task-IsLawful :
      (plan_text : String) → IsLawful ctx lt (plan_task env ctx id plan_text lt)
  unfolding plan_task
  plan_task-IsLawful plan_text = ground (arith, is_some_of→eq lt.task.assigned_to ctx.sender)

  pub assign_task-IsLawful : (target : String) → IsLawful ctx lt (assign_task env ctx id target lt)
  unfolding assign_task
  assign_task-IsLawful target =
      ground (arith, is_some_of→eq ctx.host ctx.sender, ==_iff lt.task.posted_by ctx.sender)

  pub claim_task-IsLawful : IsLawful ctx lt (claim_task env ctx id lt)
  unfolding claim_task
  claim_task-IsLawful = ground (arith, is_some_of→eq ctx.host ctx.sender)
