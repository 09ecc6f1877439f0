-- ===== src/Taskboard/Review.antt =====
-- What `approve`, `request_review`, `review_claim`, `reject`, `finish` and `cancel` of
-- crates/room-plugin-taskboard/src/handlers.rs decide about the task that they have found. `id` is the
-- command's `task_id`.
use room.Base.{
  String, ◌<>◌, true, not, ◌&&◌, Option, none, some, if◌then◌else◌, is_some_of, is_some, unwrap_or,
  ◌==◌,
}
use room.Taskboard.Task.{
  planned, in_progress, awaiting_review, review_claimed, finished, cancelled, LiveTask, Env,
  renew_lease,
}
use room.Taskboard.Reply.{Reply, wrong_status}
use room.Taskboard.Verdict.{
  CommandContext, Verdict, refuse, accept, is_status, is_started, is_closed, or_else,
}

approve_plan : Env → CommandContext → String → LiveTask → Verdict
unfolding renew_lease
approve_plan env ctx id lt =
    if not (lt.task.posted_by == ctx.sender) && not (is_some_of ctx.host ctx.sender)
    then refuse Reply.only_poster_approves
    else accept
        (renew_lease env (record lt {
          task = record lt.task {
            status = in_progress;
            approved_by = some ctx.sender;
            approved_at = some env.utc;
          };
        }))
        (Reply.approved id ctx.sender (unwrap_or lt.task.assigned_to "unknown")) true

approve_review : Env → CommandContext → String → LiveTask → Verdict
approve_review env ctx id lt =
    if not (is_some_of lt.task.reviewer ctx.sender) && not (is_some_of ctx.host ctx.sender)
    then refuse Reply.only_reviewer_approves
    else accept
        (record {
          task = record lt.task {
            status = finished;
            approved_by = some ctx.sender;
            approved_at = some env.utc;
          };
          lease_start = none;
        })
        (Reply.review_approved id ctx.sender (unwrap_or lt.task.assigned_to "unknown")) true

unfoldable pub approve_task : Env → CommandContext → String → LiveTask → Verdict
unfolding approve_plan approve_review
approve_task env ctx id lt =
    if is_status lt.task.status planned
    then approve_plan env ctx id lt
    else if is_status lt.task.status review_claimed
    then approve_review env ctx id lt
    else refuse (wrong_status id lt.task.status "must be planned or review_claimed to approve")

unfoldable pub request_review_task : Env → CommandContext → String → LiveTask → Verdict
request_review_task env ctx id lt =
    if not (is_status lt.task.status in_progress)
    then refuse (wrong_status id lt.task.status "must be in_progress to move to review")
    else if not (is_some_of lt.task.assigned_to ctx.sender)
    then refuse (Reply.only_assignee_moves id)
    else accept
        (record {
          task = record lt.task { status = awaiting_review; updated_at = some env.utc };
          lease_start = none;
        })
        (Reply.moved_to_review id ctx.sender) true

unfoldable pub review_claim_task : Env → CommandContext → String → LiveTask → Verdict
review_claim_task env ctx id lt =
    if not (is_status lt.task.status awaiting_review)
    then refuse (wrong_status id lt.task.status "must be in_review to claim for review")
    else if is_some lt.task.reviewer
    then refuse (Reply.already_reviewed id (unwrap_or lt.task.reviewer "unknown"))
    else accept
        (record {
          task = record lt.task {
            status = review_claimed;
            reviewer = some ctx.sender;
            updated_at = some env.utc;
          };
          lease_start = some env.instant;
        })
        (Reply.review_claimed_by id ctx.sender) true

unfoldable pub reject_task : Env → CommandContext → String → Option String → LiveTask → Verdict
reject_task env ctx id reason lt =
    if not (is_status lt.task.status review_claimed)
    then refuse (wrong_status id lt.task.status "must be review_claimed to reject")
    else if not (is_some_of lt.task.reviewer ctx.sender) && not (is_some_of ctx.host ctx.sender)
    then refuse (Reply.only_reviewer_rejects id)
    else accept
        (record {
          task = record lt.task {
            status = in_progress;
            reviewer = none;
            approved_by = none;
            approved_at = none;
            notes = or_else reason lt.task.notes;
            updated_at = some env.utc;
          };
          lease_start = some env.instant;
        })
        (Reply.rejected id ctx.sender reason) true

unfoldable pub finish_task : Env → CommandContext → String → LiveTask → Verdict
finish_task env ctx id lt =
    if not (is_started lt.task.status)
    then refuse
        (wrong_status id lt.task.status "must be in_progress/in_review/review_claimed to finish")
    else if not (is_some_of lt.task.assigned_to ctx.sender)
    then refuse (Reply.only_assignee_finishes id)
    else accept
        (record {
          task = record lt.task { status = finished; updated_at = some env.utc };
          lease_start = none;
        })
        (Reply.finished_by id ctx.sender) true

-- `cancelled by <user>`, with the reason behind it unless that is empty
cancel_note : String → String → String
cancel_note sender String.[] = "cancelled by " <> sender
cancel_note sender (String.◌∷◌ c s) = "cancelled by " <> (sender <> (": " <> String.◌∷◌ c s))

unfoldable pub cancel_task : Env → CommandContext → String → String → LiveTask → Verdict
unfolding cancel_note
cancel_task env ctx id reason lt =
    if is_closed lt.task.status
    then refuse (Reply.cannot_cancel id lt.task.status)
    else if not (lt.task.posted_by == ctx.sender)
        && not (is_some_of lt.task.assigned_to ctx.sender)
        && not (is_some_of ctx.host ctx.sender)
    then refuse (Reply.only_party_cancels id)
    else accept
        (record {
          task = record lt.task {
            status = cancelled;
            notes = some (cancel_note ctx.sender reason);
            updated_at = some env.utc;
          };
          lease_start = none;
        })
        (Reply.cancelled_by id ctx.sender reason) true
