-- ===== src/Taskboard/Reply.antt =====
-- The texts that crates/room-plugin-taskboard/src/handlers.rs and lib.rs reply with, one constructor
-- for each `format!`, and what each constructor reads.
use room.Base.{String, ◌<>◌, Option, none, some}
use room.Taskboard.Task.{TaskStatus, show_status}

pub data Reply : Type 0 where
  usage : String → Reply
  not_found : String → Reply
  wrong_status : String → TaskStatus → String → Reply
  team_missing : String → Reply
  teams_need_daemon : Reply
  posted : String → String → Option String → Reply
  not_member : String → String → Reply
  team_unavailable : String → Reply
  claimed_by : String → String → Reply
  other_assignee : String → Reply
  plan_submitted : String → String → Reply
  only_poster_approves : Reply
  only_reviewer_approves : Reply
  approved : String → String → String → Reply
  review_approved : String → String → String → Reply
  updated : String → Option TaskStatus → Reply
  only_assignee_releases : String → Reply
  released : String → String → Reply
  only_poster_assigns : Reply
  target_not_member : String → String → Reply
  assigned : String → String → String → Reply
  only_assignee_moves : String → Reply
  moved_to_review : String → String → Reply
  already_reviewed : String → String → Reply
  review_claimed_by : String → String → Reply
  only_reviewer_rejects : String → Reply
  rejected : String → String → Option String → Reply
  only_assignee_finishes : String → Reply
  finished_by : String → String → Reply
  cannot_cancel : String → TaskStatus → Reply
  only_party_cancels : String → Reply
  cancelled_by : String → String → String → Reply
  listing : String → Reply
  unknown_action : String → Reply

abbrev pub actions_help : String
actions_help =
    "post|list|history|mine|qa-queue|show|claim|assign|plan|approve|update|request_review|review_claim|reject|release|finish|cancel"

abbrev pub actions_list : String
actions_list =
    "post, list, history, mine, qa-queue, show, claim, assign, plan, approve, update, request_review, review_claim, reject, release, finish, cancel"

abbrev team_suffix : Option String → String
team_suffix none = ""
team_suffix (some t) = " [team: " <> (t <> "]")

abbrev warning_suffix : Option TaskStatus → String
warning_suffix none = ""
warning_suffix (some s) = " [warning: task is " <> (show_status s <> " — not yet approved]")

abbrev reason_suffix : Option String → String
reason_suffix none = ""
reason_suffix (some r) = " — reason: " <> r

-- Where the reason is the empty text there is no suffix.
abbrev dash_reason : String → String
dash_reason String.[] = ""
dash_reason (String.◌∷◌ c s) = " — " <> String.◌∷◌ c s

about : String → String → String
about id rest = "task " <> (id <> rest)

unfoldable pub text : Reply → String
unfolding about show_status
text (usage args) = "usage: /taskboard " <> args
text (not_found id) = about id " not found"
text (wrong_status id status must) =
    about id (" is " <> (show_status status <> (" (" <> (must <> ")"))))
text (team_missing team) = "team '" <> (team <> "' does not exist")
text teams_need_daemon = "team restrictions require daemon mode"
text (posted id description team) = about id (" posted: " <> (description <> team_suffix team))
text (not_member id team) =
    about id (" is restricted to team '" <> (team <> "' — you are not a member"))
text (team_unavailable id) =
    about id " has team restriction but team access is unavailable (standalone mode)"
text (claimed_by id sender) =
    about id
      (" claimed by " <> (sender <> (" — submit plan with /taskboard plan " <> (id <> " <plan>"))))
text (other_assignee id) = about id " is assigned to someone else"
text (plan_submitted id plan) = about id (" plan submitted — awaiting approval\nplan: " <> plan)
text only_poster_approves = "only the task poster or host can approve"
text only_reviewer_approves = "only the reviewer or host can approve a review"
text (approved id sender assignee) =
    about id
      (" approved by " <> (sender <> (" — @" <> (assignee <> " proceed with implementation"))))
text (review_approved id sender assignee) =
    about id (" review approved by " <> (sender <> (" — @" <> (assignee <> " task complete"))))
text (updated id warning) = about id (" updated, lease renewed" <> warning_suffix warning)
text (only_assignee_releases id) = about id " can only be released by the assignee or host"
text (released id prev) = about id (" released by " <> (prev <> " — back to open"))
text only_poster_assigns = "only the task poster or host can assign"
text (target_not_member user team) =
    "cannot assign " <> (user <> (" — not a member of team '" <> (team <> "'")))
text (assigned id target sender) = about id (" assigned to " <> (target <> (" by " <> sender)))
text (only_assignee_moves id) = about id " can only be moved to review by the assignee"
text (moved_to_review id sender) =
    about id (" moved to review by " <> (sender <> " — lease paused"))
text (already_reviewed id reviewer) = about id (" already claimed for review by " <> reviewer)
text (review_claimed_by id sender) =
    about id (" review claimed by " <> (sender <> " — lease started"))
text (only_reviewer_rejects id) = about id " can only be rejected by the reviewer or host"
text (rejected id sender reason) =
    about id (" rejected by " <> (sender <> (" — returned to in_progress" <> reason_suffix reason)))
text (only_assignee_finishes id) = about id " can only be finished by the assignee"
text (finished_by id sender) = about id (" finished by " <> sender)
text (cannot_cancel id status) = about id (" is " <> (show_status status <> " (cannot cancel)"))
text (only_party_cancels id) = about id " can only be cancelled by the poster, assignee, or host"
text (cancelled_by id sender reason) = about id (" cancelled by " <> (sender <> dash_reason reason))
text (listing s) = s
text (unknown_action other) = "unknown action: " <> (other <> (". use: " <> actions_list))
