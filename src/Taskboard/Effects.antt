-- ===== src/Taskboard/Effects.antt =====
-- What a command can do, case by case: the one place that goes through all the handlers of
-- crates/room-plugin-taskboard/src/handlers.rs. The other modules reason by these cases.
use room.Base.{
  String, ◌≡◌, refl, true, false, Option, none, [], ◌∷◌, ◌++◌, find, Found, find-Found,
  Option-cases, inl, inr, Bool-cases, get_elem?, drop,
}
use room.Base.Text.{join, is_empty_text}
use room.Taskboard.Task.{LiveTask, Env, new_live, next_id}
use room.Taskboard.State.{TaskboardPlugin, tasks_of, commit, swept, has_id}
use room.Taskboard.Reply.{Reply, posted}
use room.Taskboard.Verdict.{CommandContext, Verdict}
use room.Taskboard.Work.{claim_task, plan_task, update_task, release_task, assign_task}
use room.Taskboard.Review.{
  approve_task, request_review_task, review_claim_task, reject_task, finish_task, cancel_task,
}
use room.Taskboard.Handlers.{
  Outcome, settle, on_task, with_id, parse_team_flag, team_error, new_task, post, handle_post,
  handle_claim, handle_plan, handle_approve, handle_update, handle_release, handle_assign,
  handle_request_review, handle_review_claim, handle_reject, handle_finish, handle_cancel,
}
use room.Taskboard.Listing.{handle_list, handle_mine, handle_history, handle_qa_queue, handle_show}
use room.Taskboard.Plugin.{Action, dispatch}

-- The verdicts that the handlers pass on.
pub data Decided (env : Env) (ctx : CommandContext) (id : String) (a : LiveTask)
    : Action → Verdict → Type 0 where
  claims : Decided env ctx id a Action.claim (claim_task env ctx id a)
  plans : (plan_text : String) → Decided env ctx id a Action.plan (plan_task env ctx id plan_text a)
  approves : Decided env ctx id a Action.approve (approve_task env ctx id a)
  updates :
      (notes : Option String) → Decided env ctx id a Action.update (update_task env ctx id notes a)
  releases : Decided env ctx id a Action.release (release_task ctx id a)
  assigns : (target : String) → Decided env ctx id a Action.assign (assign_task env ctx id target a)
  requests : Decided env ctx id a Action.request_review (request_review_task env ctx id a)
  reviews : Decided env ctx id a Action.review_claim (review_claim_task env ctx id a)
  rejects :
      (reason : Option String)
      → Decided env ctx id a Action.reject (reject_task env ctx id reason a)
  finishes : Decided env ctx id a Action.finish (finish_task env ctx id a)
  cancels : (reason : String) → Decided env ctx id a Action.cancel (cancel_task env ctx id reason a)

abbrev pub posted_live : Env → TaskboardPlugin → CommandContext → Option String → String → LiveTask
posted_live env tb ctx team description =
    new_live env (new_task env ctx (next_id (tasks_of tb.board)) description team)

pub data Effect (env : Env) (tb : TaskboardPlugin) (ctx : CommandContext) (act : Action)
    : Outcome → Type 0 where
  idle : (r : Reply) → Effect env tb ctx act (r, false, tb)
  sweeps : (r : Reply) → Effect env tb ctx act (r, false, swept env tb)
  settles :
      (id : String) (a : LiveTask) (v : Verdict)
      → Found (has_id id) (swept env tb).board a
      → Decided env ctx id a act v
      → Effect env tb ctx act (settle env (swept env tb) id v)
  posts :
      (team : Option String) (description : String)
      → act ≡ Action.post
      → team_error ctx.team_access team ≡ none
      → Effect env tb ctx act (
        posted (next_id (tasks_of tb.board)) description team,
        true,
        commit env tb (tb.board ++ (posted_live env tb ctx team description ∷ [])),
      )

module _ (env : Env) (tb : TaskboardPlugin) (ctx : CommandContext) where
  on_task-Effect :
      {act : Action} (id : String) (decide : LiveTask → Verdict)
      → ((a : LiveTask) → Decided env ctx id a act (decide a))
      → Effect env tb ctx act (on_task env (swept env tb) id decide)
  unfolding on_task
  on_task-Effect id decide decided = elim (Option-cases (find (has_id id) (swept env tb).board)) [
    | inl e ↦ rw (on_task, e) (sweeps _)
    | inr (a, e) ↦ rw (on_task, e) (settles id a (decide a) (find-Found _ _ a e) (decided a))
  ]

  with_id-Effect :
      {act : Action} (args : String) (go : String → Outcome)
      → ((id : String) → Effect env tb ctx act (go id))
      → Effect env tb ctx act (with_id tb ctx args go)
  unfolding with_id
  with_id-Effect args go h = elim (Option-cases (get_elem? ctx.params 1)) [
    | inl e ↦ rw (with_id, e) (idle _)
    | inr (id, e) ↦ rw (with_id, e) (h id)
  ]

  post-Effect :
      (team : Option String) (description : String)
      → Effect env tb ctx Action.post (post env tb ctx team description)
  unfolding post
  post-Effect team description = elim (Option-cases (team_error ctx.team_access team)) [
    | inl e ↦ rw (post, e) (posts team description refl e)
    | inr (r, e) ↦ rw (post, e) (idle r)
  ]

  handle_post-Effect : Effect env tb ctx Action.post (handle_post env tb ctx)
  unfolding handle_post
  handle_post-Effect =
      let words = parse_team_flag none (drop 1 ctx.params) in
      elim (Bool-cases (is_empty_text (join " " words.1))) [
        | inl e ↦ rw e (idle _)
        | inr e ↦ rw e (post-Effect words.0 (join " " words.1))
      ]

  handle_plan-Effect : Effect env tb ctx Action.plan (handle_plan env tb ctx)
  unfolding handle_plan
  handle_plan-Effect = with_id-Effect _ _ λ id.
      let plan_text = join " " (drop 2 ctx.params) in
      elim (Bool-cases (is_empty_text plan_text)) [
        | inl e ↦ rw e (idle _)
        | inr e ↦ rw e (on_task-Effect id _ (λ a. plans plan_text))
      ]

  handle_assign-Effect : Effect env tb ctx Action.assign (handle_assign env tb ctx)
  unfolding handle_assign
  handle_assign-Effect = with_id-Effect _ _ λ id. elim (Option-cases (get_elem? ctx.params 2)) [
    | inl e ↦ rw e (idle _)
    | inr (target, e) ↦ rw e (on_task-Effect id _ (λ a. assigns target))
  ]

  handle_show-Effect : Effect env tb ctx Action.show (handle_show env tb ctx)
  unfolding handle_show
  handle_show-Effect = elim (Option-cases (get_elem? ctx.params 1)) [
    | inl e ↦ rw (handle_show, e) (idle _)
    | inr (id, e) ↦ elim (Option-cases (find (has_id id) (swept env tb).board)) [
      | inl f ↦ rw (handle_show, e, handle_show, f) (sweeps _)
      | inr (a, f) ↦ rw (handle_show, e, handle_show, f) (sweeps _)
    ]
  ]

  -- Every action has one of the effects.
  pub dispatch-Effect : (act : Action) → Effect env tb ctx act (dispatch act env tb ctx)
  unfolding dispatch
  dispatch-Effect Action.post = handle_post-Effect
  dispatch-Effect Action.list = unfold handle_list swept in sweeps _
  dispatch-Effect Action.history = unfold handle_history in sweeps _
  dispatch-Effect Action.mine = unfold handle_mine in sweeps _
  dispatch-Effect Action.qa_queue = unfold handle_qa_queue in sweeps _
  dispatch-Effect Action.claim =
      unfold handle_claim in with_id-Effect _ _ λ id. on_task-Effect id _ (λ a. claims)
  dispatch-Effect Action.assign = handle_assign-Effect
  dispatch-Effect Action.plan = handle_plan-Effect
  dispatch-Effect Action.approve =
      unfold handle_approve in with_id-Effect _ _ λ id. on_task-Effect id _ (λ a. approves)
  dispatch-Effect Action.show = handle_show-Effect
  dispatch-Effect Action.update =
      unfold handle_update in with_id-Effect _ _ λ id. on_task-Effect id _ (λ a. updates _)
  dispatch-Effect Action.release =
      unfold handle_release in with_id-Effect _ _ λ id. on_task-Effect id _ (λ a. releases)
  dispatch-Effect Action.request_review =
      unfold handle_request_review in with_id-Effect _ _ λ id. on_task-Effect id _ (λ a. requests)
  dispatch-Effect Action.review_claim =
      unfold handle_review_claim in with_id-Effect _ _ λ id. on_task-Effect id _ (λ a. reviews)
  dispatch-Effect Action.reject =
      unfold handle_reject in with_id-Effect _ _ λ id. on_task-Effect id _ (λ a. rejects _)
  dispatch-Effect Action.finish =
      unfold handle_finish in with_id-Effect _ _ λ id. on_task-Effect id _ (λ a. finishes)
  dispatch-Effect Action.cancel =
      unfold handle_cancel in with_id-Effect _ _ λ id. on_task-Effect id _ (λ a. cancels _)
  dispatch-Effect Action.no_action = idle _
  dispatch-Effect (Action.other a) = idle _
