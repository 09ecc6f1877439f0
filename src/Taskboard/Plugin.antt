-- ===== src/Taskboard/Plugin.antt =====
-- `Plugin::handle` of crates/room-plugin-taskboard/src/lib.rs: the action is the first word, and a
-- broadcast emits the action's event first. The event goes to the room through the context's writer;
-- here it is part of the result.
use room.Base.{
  String, ◌<>◌, Bool, true, false, Option, none, some, if◌then◌else◌, is_some_of, unwrap_or, ◌==◌,
  get_elem?,
}
use room.Taskboard.Task.{Env}
use room.Taskboard.State.{TaskboardPlugin}
use room.Taskboard.Reply.{Reply, usage, unknown_action, actions_help}
use room.Taskboard.Verdict.{CommandContext}
use room.Taskboard.Handlers.{
  Outcome, handle_post, handle_claim, handle_plan, handle_approve, handle_update, handle_release,
  handle_assign, handle_request_review, handle_review_claim, handle_reject, handle_finish,
  handle_cancel,
}
use room.Taskboard.Listing.{handle_list, handle_mine, handle_history, handle_qa_queue, handle_show}
use room.Protocol.Events.{EventType}

-- The words that `handle` matches on; `other` is any other word.
pub data Action : Type 0 where
  post list history mine qa_queue claim assign plan approve show update release : Action
  request_review review_claim reject finish cancel no_action : Action
  other : String → Action

unfoldable pub parse_action : String → Action
parse_action a =
    if a == "post"
    then post
    else if a == "list"
    then list
    else if a == "history"
    then history
    else if a == "mine"
    then mine
    else if a == "qa-queue"
    then qa_queue
    else if a == "claim"
    then claim
    else if a == "assign"
    then assign
    else if a == "plan"
    then plan
    else if a == "approve"
    then approve
    else if a == "show"
    then show
    else if a == "update"
    then update
    else if a == "release"
    then release
    else if a == "request_review"
    then request_review
    else if a == "review_claim"
    then review_claim
    else if a == "reject"
    then reject
    else if a == "finish"
    then finish
    else if a == "cancel"
    then cancel
    else if a == ""
    then no_action
    else other a

unfoldable pub dispatch : Action → Env → TaskboardPlugin → CommandContext → Outcome
dispatch post env tb ctx = handle_post env tb ctx
dispatch list env tb ctx = handle_list env tb (is_some_of (get_elem? ctx.params 1) "all")
dispatch history env tb ctx = handle_history env tb
dispatch mine env tb ctx = handle_mine env tb ctx
dispatch qa_queue env tb ctx = handle_qa_queue env tb
dispatch claim env tb ctx = handle_claim env tb ctx
dispatch assign env tb ctx = handle_assign env tb ctx
dispatch plan env tb ctx = handle_plan env tb ctx
dispatch approve env tb ctx = handle_approve env tb ctx
dispatch show env tb ctx = handle_show env tb ctx
dispatch update env tb ctx = handle_update env tb ctx
dispatch release env tb ctx = handle_release env tb ctx
dispatch request_review env tb ctx = handle_request_review env tb ctx
dispatch review_claim env tb ctx = handle_review_claim env tb ctx
dispatch reject env tb ctx = handle_reject env tb ctx
dispatch finish env tb ctx = handle_finish env tb ctx
dispatch cancel env tb ctx = handle_cancel env tb ctx
dispatch no_action env tb ctx = (usage ("<" <> (actions_help <> "> [args...]")), false, tb)
dispatch (other a) env tb ctx = (unknown_action a, false, tb)

unfoldable pub event_of : Action → Option EventType
event_of post = some EventType.task_posted
event_of claim = some EventType.task_claimed
event_of assign = some EventType.task_assigned
event_of plan = some EventType.task_planned
event_of approve = some EventType.task_approved
event_of update = some EventType.task_updated
event_of request_review = some EventType.review_requested
event_of review_claim = some EventType.review_claimed
event_of reject = some EventType.task_rejected
event_of release = some EventType.task_released
event_of finish = some EventType.task_finished
event_of cancel = some EventType.task_cancelled
event_of _ = none

pub data PluginResult : Type 0 where
  broadcast : Option EventType → Reply → PluginResult
  reply : Reply → PluginResult

abbrev pub is_broadcast : PluginResult → Bool
is_broadcast (broadcast event r) = true
is_broadcast (reply r) = false

abbrev pub action_of : CommandContext → Action
action_of ctx = parse_action (unwrap_or (get_elem? ctx.params 0) "")

unfoldable pub handle : Env → TaskboardPlugin → CommandContext → PluginResult × TaskboardPlugin
handle env tb ctx =
    let act = action_of ctx in
    let (r, shared, tb') = dispatch act env tb ctx in
    (if shared then broadcast (event_of act) r else reply r, tb')
