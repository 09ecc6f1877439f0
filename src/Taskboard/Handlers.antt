-- ===== src/Taskboard/Handlers.antt =====
-- The handlers of crates/room-plugin-taskboard/src/handlers.rs that change the board: the arguments,
-- the sweep of expired leases, the search for the task, and the write of the result.
use room.Base.{
  String, Bool, true, false, not, Option, none, some, List, [], ◌∷◌, ◌++◌, if◌then◌else◌, ◌==◌,
  get_elem?, drop, find, replace_first,
}
use room.Base.Text.{join, is_empty_text}
use room.Taskboard.Task.{opened, Task, LiveTask, Env, new_live, next_id}
use room.Taskboard.State.{TaskboardPlugin, tasks_of, commit, swept, has_id}
use room.Taskboard.Reply.{Reply, usage, not_found, team_missing, teams_need_daemon, posted}
use room.Taskboard.Verdict.{TeamAccess, CommandContext, Verdict, refuse, accept, words_after_id}
use room.Taskboard.Work.{claim_task, plan_task, update_task, release_task, assign_task}
use room.Taskboard.Review.{
  approve_task, request_review_task, review_claim_task, reject_task, finish_task, cancel_task,
}

-- The reply, whether it is broadcast, and the plugin after the command.
abbrev pub Outcome : Type 0
Outcome = Reply × Bool × TaskboardPlugin

-- The verdict on the found task is written back in its place, and the board is saved.
unfoldable pub settle : Env → TaskboardPlugin → String → Verdict → Outcome
settle env tb id (refuse r) = (r, false, tb)
settle env tb id (accept lt r broadcast) =
    (r, broadcast, commit env tb (replace_first (has_id id) lt tb.board))

unfoldable pub on_task : Env → TaskboardPlugin → String → (LiveTask → Verdict) → Outcome
on_task env tb id decide = elim (find (has_id id) tb.board) [
  | none ↦ (not_found id, false, tb)
  | some lt ↦ settle env tb id (decide lt)
]

-- `ctx.params.get(1)`, or the usage text
unfoldable pub with_id : TaskboardPlugin → CommandContext → String → (String → Outcome) → Outcome
with_id tb ctx args go = elim (get_elem? ctx.params 1) [
  | none ↦ (usage args, false, tb)
  | some id ↦ go id
]

-- The last `--team <name>`, and the words that are left; a `--team` in the last place is a word.
unfoldable pub parse_team_flag : Option String → List String → Option String × List String
parse_team_flag team [] = (team, [])
parse_team_flag team (a ∷ []) = (team, a ∷ [])
parse_team_flag team (a ∷ (b ∷ args)) =
    let skipped = parse_team_flag (some b) args in
    let kept = parse_team_flag team (b ∷ args) in
    if a == "--team" then skipped else (kept.0, a ∷ kept.1)

-- The check that a team which is named exists, `none` where it passes.
unfoldable pub team_error : Option TeamAccess → Option String → Option Reply
team_error access none = none
team_error none (some team) = some teams_need_daemon
team_error (some ta) (some team) =
    if not (ta.team_exists team) then some (team_missing team) else none

unfoldable pub new_task : Env → CommandContext → String → String → Option String → Task
new_task env ctx id description team = record {
  id = id;
  description = description;
  status = opened;
  posted_by = ctx.sender;
  assigned_to = none;
  posted_at = env.utc;
  claimed_at = none;
  plan = none;
  approved_by = none;
  approved_at = none;
  updated_at = none;
  notes = none;
  team = team;
  reviewer = none;
}

unfoldable pub post : Env → TaskboardPlugin → CommandContext → Option String → String → Outcome
post env tb ctx team description = elim (team_error ctx.team_access team) [
  | some r ↦ (r, false, tb)
  | none ↦
      let id = next_id (tasks_of tb.board) in
      (
        posted id description team,
        true,
        commit env tb (tb.board ++ (new_live env (new_task env ctx id description team) ∷ [])),
      )
]

unfoldable pub handle_post : Env → TaskboardPlugin → CommandContext → Outcome
handle_post env tb ctx =
    let (team, parts) = parse_team_flag none (drop 1 ctx.params) in
    let description = join " " parts in
    if is_empty_text description
    then (usage "post [--team <name>] <description>", false, tb)
    else post env tb ctx team description

unfoldable pub handle_claim : Env → TaskboardPlugin → CommandContext → Outcome
handle_claim env tb ctx =
    with_id tb ctx "claim <task-id>" λ id. on_task env (swept env tb) id (claim_task env ctx id)

unfoldable pub handle_plan : Env → TaskboardPlugin → CommandContext → Outcome
handle_plan env tb ctx = with_id tb ctx "plan <task-id> <plan text>" λ id.
    let plan_text = join " " (drop 2 ctx.params) in
    if is_empty_text plan_text
    then (usage "plan <task-id> <plan text>", false, tb)
    else on_task env (swept env tb) id (plan_task env ctx id plan_text)

unfoldable pub handle_approve : Env → TaskboardPlugin → CommandContext → Outcome
handle_approve env tb ctx =
    with_id tb ctx "approve <task-id>" λ id. on_task env (swept env tb) id (approve_task env ctx id)

unfoldable pub handle_update : Env → TaskboardPlugin → CommandContext → Outcome
handle_update env tb ctx =
    with_id tb ctx "update <task-id> [notes]"
      λ id. on_task env (swept env tb) id (update_task env ctx id (words_after_id ctx.params))

unfoldable pub handle_release : Env → TaskboardPlugin → CommandContext → Outcome
handle_release env tb ctx =
    with_id tb ctx "release <task-id>" λ id. on_task env (swept env tb) id (release_task ctx id)

unfoldable pub handle_assign : Env → TaskboardPlugin → CommandContext → Outcome
handle_assign env tb ctx = with_id tb ctx "assign <task-id> <username>" λ id.
    elim (get_elem? ctx.params 2) [
      | none ↦ (usage "assign <task-id> <username>", false, tb)
      | some target ↦ on_task env (swept env tb) id (assign_task env ctx id target)
    ]

unfoldable pub handle_request_review : Env → TaskboardPlugin → CommandContext → Outcome
handle_request_review env tb ctx =
    with_id tb ctx "request_review <task-id>"
      λ id. on_task env (swept env tb) id (request_review_task env ctx id)

unfoldable pub handle_review_claim : Env → TaskboardPlugin → CommandContext → Outcome
handle_review_claim env tb ctx =
    with_id tb ctx "review_claim <task-id>"
      λ id. on_task env (swept env tb) id (review_claim_task env ctx id)

unfoldable pub handle_reject : Env → TaskboardPlugin → CommandContext → Outcome
handle_reject env tb ctx =
    with_id tb ctx "reject <task-id> [reason]"
      λ id. on_task env (swept env tb) id (reject_task env ctx id (words_after_id ctx.params))

unfoldable pub handle_finish : Env → TaskboardPlugin → CommandContext → Outcome
handle_finish env tb ctx =
    with_id tb ctx "finish <task-id>" λ id. on_task env (swept env tb) id (finish_task env ctx id)

unfoldable pub handle_cancel : Env → TaskboardPlugin → CommandContext → Outcome
handle_cancel env tb ctx =
    with_id tb ctx "cancel <task-id> [reason]"
      λ id. on_task env (swept env tb) id (cancel_task env ctx id (join " " (drop 2 ctx.params)))
