-- ===== src/Taskboard/Replies.antt =====
-- What the reply of a command says of the board, and which events are emitted.
use room.Base.{
  ◌≡◌, refl, ◌≢◌, ◌⊎◌, inl, inr, Bool, true, false, not, some, arith, if◌then◌else◌, String,
}
use room.Taskboard.Task.{LiveTask, Env}
use room.Taskboard.State.{TaskboardPlugin, swept}
use room.Taskboard.Reply.{Reply}
use room.Taskboard.Verdict.{CommandContext, Verdict, refuse, accept}
use room.Taskboard.Work.{claim_task, plan_task, update_task, release_task, assign_task}
use room.Taskboard.Review.{
  approve_task, request_review_task, review_claim_task, reject_task, finish_task, cancel_task,
}
use room.Taskboard.Handlers.{Outcome, settle}
use room.Taskboard.Effects.{Decided, Effect, dispatch-Effect}
use room.Taskboard.Plugin
use room.Taskboard.Plugin.{
  Action, PluginResult, dispatch, event_of, action_of, is_broadcast, handle,
}
use room.Protocol.Events.{EventType}

abbrev pub is_update : Action → Bool
is_update Action.update = true
is_update _ = false

-- An accepted verdict is broadcast, unless it is one of `update`, which never is.
abbrev IsShared : Action → Verdict → Type 0
IsShared act (refuse r) = Unit
IsShared act (accept b r shared) = shared ≡ not (is_update act)

Decided-IsShared :
    {env : Env} {ctx : CommandContext} {id : String} {a : LiveTask} {act : Action} {v : Verdict}
    → Decided env ctx id a act v
    → IsShared act v
unfolding claim_task plan_task approve_task update_task release_task assign_task request_review_task
    review_claim_task reject_task finish_task cancel_task
Decided-IsShared Decided.claims = ground arith
Decided-IsShared (Decided.plans t) = ground arith
Decided-IsShared Decided.approves = ground arith
Decided-IsShared (Decided.updates n) = ground arith
Decided-IsShared Decided.releases = ground arith
Decided-IsShared (Decided.assigns t) = ground arith
Decided-IsShared Decided.requests = ground arith
Decided-IsShared Decided.reviews = ground arith
Decided-IsShared (Decided.rejects r) = ground arith
Decided-IsShared Decided.finishes = ground arith
Decided-IsShared (Decided.cancels r) = ground arith

module _ (env : Env) (tb : TaskboardPlugin) (ctx : CommandContext) where
  settle-quiet :
      (id : String) (act : Action) (v : Verdict)
      → IsShared act v
      → (settle env tb id v).1 ≡ false
      → is_update act ≡ false
      → (settle env tb id v).2 ≡ tb
  unfolding settle
  settle-quiet id act (refuse r) s h u = refl
  settle-quiet id act (accept b r shared) s h u = ground arith

  settle-update :
      (id : String) (act : Action) (v : Verdict)
      → IsShared act v
      → is_update act ≡ true
      → (settle env tb id v).1 ≡ false
  unfolding settle
  settle-update id act (refuse r) s u = refl
  settle-update id act (accept b r shared) s u = ground arith

module _ (env : Env) (tb : TaskboardPlugin) (ctx : CommandContext) where
  Effect-quiet :
      {act : Action} {out : Outcome}
      → Effect env tb ctx act out
      → out.1 ≡ false
      → is_update act ≡ false
      → (out.2 ≡ tb) ⊎ (out.2 ≡ swept env tb)
  Effect-quiet (Effect.idle r) h u = inl refl
  Effect-quiet (Effect.sweeps r) h u = inr refl
  Effect-quiet {act} (Effect.settles id a v f d) h u =
      inr (settle-quiet env (swept env tb) ctx id act v (Decided-IsShared d) h u)
  Effect-quiet (Effect.posts team description p e) h u = cc

  Effect-update :
      {act : Action} {out : Outcome}
      → Effect env tb ctx act out
      → is_update act ≡ true
      → out.1 ≡ false
  Effect-update (Effect.idle r) u = refl
  Effect-update (Effect.sweeps r) u = refl
  Effect-update {act} (Effect.settles id a v f d) u =
      settle-update env (swept env tb) ctx id act v (Decided-IsShared d) u
  Effect-update {act} (Effect.posts team description p e) u = ground arith

  result-reply :
      (act : Action) (out : Outcome)
      → is_broadcast (if out.1 then Plugin.broadcast (event_of act) out.0 else Plugin.reply out.0)
        ≡ false
      → out.1 ≡ false
  result-reply act out h = ground arith

  -- A command that is answered with a private reply, other than `update`, leaves the plugin as it was or
  -- as the sweep of expired leases leaves it: no error changes a task.
  pub handle-reply :
      is_broadcast (handle env tb ctx).0 ≡ false
      → is_update (action_of ctx) ≡ false
      → ((handle env tb ctx).1 ≡ tb) ⊎ ((handle env tb ctx).1 ≡ swept env tb)
  unfolding handle
  handle-reply h u =
      Effect-quiet (dispatch-Effect env tb ctx (action_of ctx))
        (result-reply (action_of ctx) (dispatch (action_of ctx) env tb ctx) h) u

  event-not-updated :
      (act : Action) (out : Outcome) (r : Reply)
      → (is_update act ≡ true → out.1 ≡ false)
      → (if out.1 then Plugin.broadcast (event_of act) out.0 else Plugin.reply out.0)
        ≢ Plugin.broadcast (some EventType.task_updated) r
  unfolding event_of
  event-not-updated act out r h e = ground arith

  -- No command emits the event `task_updated`, though `update` has it in the table of events.
  pub handle-not-task_updated :
      (r : Reply) → (handle env tb ctx).0 ≢ Plugin.broadcast (some EventType.task_updated) r
  unfolding handle
  handle-not-task_updated r =
      event-not-updated (action_of ctx) (dispatch (action_of ctx) env tb ctx) r
        (Effect-update (dispatch-Effect env tb ctx (action_of ctx)))
