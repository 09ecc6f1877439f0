-- ===== src/Taskboard/Work.antt =====
-- What `claim`, `plan`, `update`, `release` and `assign` of
-- crates/room-plugin-taskboard/src/handlers.rs decide about the task that they have found: the guards
-- in the code's order, then the task as it is left. `id` is the command's `task_id`.
use room.Base.{
  String, true, false, not, ◌&&◌, ◌||◌, Option, none, some, if◌then◌else◌, is_some_of, unwrap_or,
  ◌==◌,
}
use room.Taskboard.Task.{opened, claimed, planned, LiveTask, Env, renew_lease}
use room.Taskboard.Reply.{Reply, wrong_status}
use room.Taskboard.Verdict.{
  CommandContext, Verdict, refuse, accept, is_status, is_held, is_started, or_else,
}

-- The team test of `claim` and `assign`: `user` must be a member of the task's team, if it has one.
abbrev team_gate : CommandContext → String → Option String → String → Reply → Verdict → Verdict
team_gate ctx id none user outsider go = go
team_gate ctx id (some team) user outsider go = elim ctx.team_access [
  | none ↦ refuse (Reply.team_unavailable id)
  | some ta ↦ if ta.is_member team user then go else refuse outsider
]

take_up : Env → String → LiveTask → LiveTask
unfolding renew_lease
take_up env user lt = renew_lease env (record lt {
  task = record lt.task { status = claimed; assigned_to = some user; claimed_at = some env.utc };
})

unfoldable pub claim_task : Env → CommandContext → String → LiveTask → Verdict
unfolding take_up
claim_task env ctx id lt =
    if not (is_status lt.task.status opened)
    then refuse (wrong_status id lt.task.status "must be open to claim")
    else team_gate ctx id lt.task.team ctx.sender (Reply.not_member id (unwrap_or lt.task.team ""))
        (accept (take_up env ctx.sender lt) (Reply.claimed_by id ctx.sender) true)

unfoldable pub plan_task : Env → CommandContext → String → String → LiveTask → Verdict
unfolding renew_lease
plan_task env ctx id plan_text lt =
    if not (is_status lt.task.status claimed || is_status lt.task.status planned)
    then refuse (wrong_status id lt.task.status "must be claimed to submit plan")
    else if not (is_some_of lt.task.assigned_to ctx.sender)
    then refuse (Reply.other_assignee id)
    else accept
        (renew_lease env
          (record lt { task = record lt.task { status = planned; plan = some plan_text } }))
        (Reply.plan_submitted id plan_text) true

unfoldable pub update_task : Env → CommandContext → String → Option String → LiveTask → Verdict
unfolding renew_lease
update_task env ctx id notes lt =
    if not (is_held lt.task.status)
    then refuse (
        wrong_status id lt.task.status
          "must be claimed/planned/in_progress/in_review/review_claimed to update")
    else if not (is_some_of lt.task.assigned_to ctx.sender)
    then refuse (Reply.other_assignee id)
    else accept
        (renew_lease env
          (record lt { task = record lt.task { notes = or_else notes lt.task.notes } }))
        (Reply.updated id (if is_started lt.task.status then none else some lt.task.status)) false

unfoldable pub release_task : CommandContext → String → LiveTask → Verdict
release_task ctx id lt =
    if not (is_held lt.task.status)
    then refuse (
        wrong_status id lt.task.status
          "must be claimed/planned/in_progress/in_review/review_claimed to release")
    else if not (is_some_of lt.task.assigned_to ctx.sender) && not (is_some_of ctx.host ctx.sender)
    then refuse (Reply.only_assignee_releases id)
    else accept
        (record {
          task = record lt.task {
            status = opened;
            assigned_to = none;
            claimed_at = none;
            plan = none;
            approved_by = none;
            approved_at = none;
          };
          lease_start = none;
        })
        (Reply.released id (unwrap_or lt.task.assigned_to "")) true

unfoldable pub assign_task : Env → CommandContext → String → String → LiveTask → Verdict
unfolding take_up
assign_task env ctx id target lt =
    if not (is_status lt.task.status opened)
    then refuse (wrong_status id lt.task.status "must be open to assign")
    else if not (lt.task.posted_by == ctx.sender) && not (is_some_of ctx.host ctx.sender)
    then refuse Reply.only_poster_assigns
    else team_gate ctx id lt.task.team target
        (Reply.target_not_member target (unwrap_or lt.task.team ""))
        (accept (take_up env target lt) (Reply.assigned id target ctx.sender) true)
