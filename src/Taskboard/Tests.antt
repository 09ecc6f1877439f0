-- ===== src/Taskboard/Tests.antt =====
-- Runs of the taskboard on concrete boards, and the laws applied to them.
use room.Base.{
  String, ◌≡◌, ◌≢◌, ◌⊎◌, refl, true, false, none, some, List, [], ◌∷◌, All, Distinct, arith,
  get_elem?, ◌==◌, ==_iff, length, ◌+◌, ◌<◌, ◌^◌,
}
use room.Base.Text.{is_empty_text, join, strip_prefix}
use room.Base.Text.Decimal.{parse_uint, scan, to_decimal_padded, to_decimal, digits}
use room.Base.Text.Lines.{is_line}
use room.Base.Text.Blank.{is_blank, is_whitespace}
use room.Base.Text.Codec.{Codec, IsEncoded}
use room.Taskboard.Task.{
  opened, review_claimed, finished, Task, LiveTask, Env, expire, is_leased, is_expired, max_id,
  id_number, next_id, new_live,
}
use room.Taskboard.State.{TaskboardPlugin, tasks_of, swept, sweep_expired, commit}
use room.Taskboard.State
use room.Taskboard.Verdict.{CommandContext, accept}
use room.Taskboard.Work.{release_task, plan_task}
use room.Taskboard.Handlers.{
  handle_post, handle_plan, with_id, on_task, settle, parse_team_flag, post, team_error, new_task,
}
use room.Taskboard.Reply.{released}
use room.Taskboard.Plugin
use room.Taskboard.Plugin.{handle, parse_action, is_broadcast}
use room.Taskboard.Steps.{CommandStep, handle-CommandStep}
use room.Taskboard.Sound.{IsSound, run, run-IsSound}
use room.Taskboard.Closed.{run-closed}
use room.Taskboard.Ids.{board_ids, run-Distinct}
use room.Taskboard.Storage.{handle-restart}
use room.Taskboard.Replies.{is_update, handle-reply}
use room.Taskboard.Orphan.{Later, IsUnreviewable, release_ends_review, expire_ends_review}

abbrev posted_task : Task
posted_task = record {
  id = "tb-001";
  description = "fix the parser";
  status = opened;
  posted_by = "alice";
  assigned_to = none;
  posted_at = 5;
  claimed_at = none;
  plan = none;
  approved_by = none;
  approved_at = none;
  updated_at = none;
  notes = none;
  team = none;
  reviewer = none;
}

abbrev done_task : Task
done_task = record posted_task {
  id = "tb-002";
  status = finished;
  assigned_to = some "bob";
  plan = some "rewrite it";
}

abbrev review_task : Task
review_task = record posted_task {
  id = "tb-003";
  status = review_claimed;
  assigned_to = some "bob";
  plan = some "rewrite it";
  reviewer = some "carol";
}

-- A serializer of one text, which stands for the one task that is written in these runs.
abbrev one_task : Codec Task
one_task = record { encode = λ t. some "{}"; decode = λ s. some posted_task }

abbrev env : Env
env = record { instant = 100; utc = 5; write_fault = none; codec = one_task }

abbrev open_live : LiveTask
open_live = record { task = posted_task; lease_start = none }

abbrev done_live : LiveTask
done_live = record { task = done_task; lease_start = none }

abbrev review_live : LiveTask
review_live = record { task = review_task; lease_start = some 90 }

abbrev empty_board : TaskboardPlugin
empty_board = record { board = []; storage = none; lease_ttl = 600 }

abbrev full_board : TaskboardPlugin
full_board = record {
  board = open_live ∷ done_live ∷ review_live ∷ [];
  storage = none;
  lease_ttl = 600;
}

abbrev says : String → List String → CommandContext
says who words = record { params = words; sender = who; host = some "alice"; team_access = none }

abbrev post_it : CommandContext
post_it = says "alice" ("post" ∷ "fix" ∷ "the" ∷ "parser" ∷ [])

abbrev claim_it : CommandContext
claim_it = says "bob" ("claim" ∷ "tb-001" ∷ [])

abbrev plan_open : CommandContext
plan_open = says "bob" ("plan" ∷ "tb-001" ∷ "later" ∷ [])

abbrev commands : List (Env × CommandContext)
commands = (env, claim_it) ∷ (env, plan_open) ∷ (env, post_it) ∷ []

handle-CommandStep_example :
    CommandStep env full_board claim_it (handle env full_board claim_it).1.board
handle-CommandStep_example = handle-CommandStep env full_board claim_it

open-IsSound : IsSound open_live
unfolding is_leased
open-IsSound = ground arith

done-IsSound : IsSound done_live
unfolding is_leased
done-IsSound = ground arith

review-IsSound : IsSound review_live
unfolding is_leased
review-IsSound = ground arith

run-IsSound_example : All IsSound (run full_board commands).board
run-IsSound_example =
    run-IsSound full_board commands (open-IsSound, (done-IsSound, (review-IsSound, tt)))

run-closed_example : get_elem? (run full_board commands).board 1 ≡ some done_live
run-closed_example = run-closed done_live refl full_board commands 1 refl

differs : (s t : String) → (s == t) ≡ false → s ≢ t
differs s t n e = ground (arith, n, e, ==_iff s t)

board-Distinct : Distinct (board_ids full_board.board)
unfolding ◌==◌
board-Distinct = (
  (differs "tb-002" "tb-001" refl, (differs "tb-003" "tb-001" refl, tt)),
  ((differs "tb-003" "tb-002" refl, tt), (tt, tt)),
)

few_commands : max_id (board_ids full_board.board) + length commands < 2 ^ 32
unfolding max_id id_number strip_prefix parse_uint scan
few_commands = omega arith

run-Distinct_example : Distinct (board_ids (run full_board commands).board)
run-Distinct_example = run-Distinct full_board commands board-Distinct few_commands

posted_broadcast : is_broadcast (handle env empty_board post_it).0 ≡ true
unfolding handle Plugin.dispatch parse_action ◌==◌ handle_post is_empty_text join parse_team_flag
    post team_error
posted_broadcast = refl

post-IsEncoded : All (IsEncoded one_task) (tasks_of (handle env empty_board post_it).1.board)
unfolding handle Plugin.dispatch parse_action ◌==◌ handle_post is_empty_text join parse_team_flag
    post team_error commit new_live new_task next_id max_id to_decimal_padded to_decimal digits
    is_line is_blank is_whitespace
post-IsEncoded = (("{}", refl, refl, refl, refl), tt)

handle-restart_example :
    let after = (handle env empty_board post_it).1 in
    let started = State.new env after.storage (some 600) in
    (tasks_of started.board ≡ tasks_of after.board) × All IsSound started.board
handle-restart_example =
    handle-restart env env empty_board post_it (some 600) post-IsEncoded refl refl tt
      posted_broadcast

plan_refused : is_broadcast (handle env full_board plan_open).0 ≡ false
unfolding handle Plugin.dispatch parse_action ◌==◌ handle_plan with_id is_empty_text join on_task
    swept sweep_expired is_expired settle plan_task
plan_refused = refl

plan-no_update : is_update (Plugin.action_of plan_open) ≡ false
unfolding parse_action ◌==◌
plan-no_update = refl

handle-reply_example :
    ((handle env full_board plan_open).1 ≡ full_board)
    ⊎ ((handle env full_board plan_open).1 ≡ swept env full_board)
handle-reply_example = handle-reply env full_board plan_open plan_refused plan-no_update

abbrev freed_live : LiveTask
freed_live = record {
  task = record review_task { status = opened; assigned_to = none; plan = none };
  lease_start = none;
}

release_frees :
    release_task (says "bob" []) "tb-003" review_live
    ≡ accept freed_live (released "tb-003" "bob") true
unfolding release_task ◌==◌
release_frees = refl

release_ends_review_example : IsUnreviewable freed_live
release_ends_review_example =
    release_ends_review (says "bob" []) "tb-003" review_live freed_live freed_live
      (released "tb-003" "bob") true refl refl release_frees Later.now

expire_ends_review_example : IsUnreviewable (expire review_live)
expire_ends_review_example = expire_ends_review review_live (expire review_live) refl Later.now
