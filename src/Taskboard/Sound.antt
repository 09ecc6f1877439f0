-- ===== src/Taskboard/Sound.antt =====
-- What every task of a board satisfies: which of its fields are set, by its status.
use room.Base.{
  String, ◌≡◌, true, Option, none, List, [], ◌∷◌, arith, All, All-append, Found-All,
  replace_first-All, is_some,
}
use room.Taskboard.Task.{
  opened, planned, review_claimed, LiveTask, Env, is_leased, new_live, expire,
}
use room.Taskboard.State.{TaskboardPlugin, commit, swept, has_id}
use room.Taskboard.Verdict.{
  CommandContext, Verdict, refuse, accept, is_status, is_held, is_started, is_closed,
}
use room.Taskboard.Work.{claim_task, plan_task, update_task, release_task, assign_task}
use room.Taskboard.Review.{
  approve_task, request_review_task, review_claim_task, reject_task, finish_task, cancel_task,
}
use room.Taskboard.Handlers.{Outcome, settle, new_task}
use room.Taskboard.Sweep.{All-swept}
use room.Taskboard.Effects.{Decided, Effect, dispatch-Effect}
use room.Taskboard.Plugin.{Action, handle, action_of}

pub record IsSound (lt : LiveTask) : Type 0 where
  -- an open task belongs to nobody and carries nothing over from an earlier holder's work
  pub free :
      is_status lt.task.status opened ≡ true
      → (lt.task.assigned_to ≡ none)
        × (lt.task.claimed_at ≡ none)
        × (lt.task.plan ≡ none)
        × (lt.task.approved_by ≡ none)
        × (lt.task.approved_at ≡ none)
        × (lt.lease_start ≡ none)
  pub held : is_held lt.task.status ≡ true → is_some lt.task.assigned_to ≡ true
  pub has_plan : is_status lt.task.status planned ≡ true → is_some lt.task.plan ≡ true
  pub started : is_started lt.task.status ≡ true → is_some lt.task.plan ≡ true
  pub reviewed : is_status lt.task.status review_claimed ≡ true → is_some lt.task.reviewer ≡ true
  pub leased : is_leased lt.task.status ≡ true → is_some lt.lease_start ≡ true
  pub closed : is_closed lt.task.status ≡ true → lt.lease_start ≡ none

abbrev IsSoundAfter : Verdict → Type 0
IsSoundAfter (refuse r) = Unit
IsSoundAfter (accept b r broadcast) = IsSound b

module _ (env : Env) (ctx : CommandContext) (id : String) (lt : LiveTask) where
  finish_task-IsSound : IsSound lt → IsSoundAfter (finish_task env ctx id lt)
  unfolding finish_task is_leased
  finish_task-IsSound h = ground arith

  cancel_task-IsSound :
      (reason : String) → IsSound lt → IsSoundAfter (cancel_task env ctx id reason lt)
  unfolding cancel_task is_leased
  cancel_task-IsSound reason h = ground arith

  reject_task-IsSound :
      (reason : Option String) → IsSound lt → IsSoundAfter (reject_task env ctx id reason lt)
  unfolding reject_task is_leased
  reject_task-IsSound reason h = ground arith

  review_claim_task-IsSound : IsSound lt → IsSoundAfter (review_claim_task env ctx id lt)
  unfolding review_claim_task is_leased
  review_claim_task-IsSound h = ground arith

  request_review_task-IsSound : IsSound lt → IsSoundAfter (request_review_task env ctx id lt)
  unfolding request_review_task is_leased
  request_review_task-IsSound h = ground arith

  approve_task-IsSound : IsSound lt → IsSoundAfter (approve_task env ctx id lt)
  unfolding approve_task is_leased
  approve_task-IsSound h = ground arith

  release_task-IsSound : IsSound lt → IsSoundAfter (release_task ctx id lt)
  unfolding release_task is_leased
  release_task-IsSound h = ground arith

  update_task-IsSound :
      (notes : Option String) → IsSound lt → IsSoundAfter (update_task env ctx id notes lt)
  unfolding update_task is_leased
  update_task-IsSound notes h = ground arith

  plan_task-IsSound :
      (plan_text : String) → IsSound lt → IsSoundAfter (plan_task env ctx id plan_text lt)
  unfolding plan_task is_leased
  plan_task-IsSound plan_text h = ground arith

  assign_task-IsSound :
      (target : String) → IsSound lt → IsSoundAfter (assign_task env ctx id target lt)
  unfolding assign_task is_leased
  assign_task-IsSound target h = ground arith

  claim_task-IsSound : IsSound lt → IsSoundAfter (claim_task env ctx id lt)
  unfolding claim_task is_leased
  claim_task-IsSound h = ground arith

expire-IsSound : (lt : LiveTask) → IsSound (expire lt)
unfolding expire is_leased
expire-IsSound lt = ground arith

-- Whatever the command, every task of the board it leaves is sound if every task was.
settle-IsSound :
    (env : Env) (tb : TaskboardPlugin) (id : String) (v : Verdict)
    → All IsSound tb.board
    → IsSoundAfter v
    → All IsSound (settle env tb id v).2.board
unfolding settle commit
settle-IsSound env tb id (refuse r) hs h = hs
settle-IsSound env tb id (accept b r broadcast) hs h =
    replace_first-All IsSound (has_id id) b tb.board h hs

Decided-IsSound :
    {env : Env} {ctx : CommandContext} {id : String} {a : LiveTask} {act : Action} {v : Verdict}
    → IsSound a
    → Decided env ctx id a act v
    → IsSoundAfter v
Decided-IsSound {env} {ctx} {id} {a} h Decided.claims = claim_task-IsSound env ctx id a h
Decided-IsSound {env} {ctx} {id} {a} h (Decided.plans t) = plan_task-IsSound env ctx id a t h
Decided-IsSound {env} {ctx} {id} {a} h Decided.approves = approve_task-IsSound env ctx id a h
Decided-IsSound {env} {ctx} {id} {a} h (Decided.updates n) = update_task-IsSound env ctx id a n h
Decided-IsSound {env} {ctx} {id} {a} h Decided.releases = release_task-IsSound env ctx id a h
Decided-IsSound {env} {ctx} {id} {a} h (Decided.assigns t) = assign_task-IsSound env ctx id a t h
Decided-IsSound {env} {ctx} {id} {a} h Decided.requests = request_review_task-IsSound env ctx id a h
Decided-IsSound {env} {ctx} {id} {a} h Decided.reviews = review_claim_task-IsSound env ctx id a h
Decided-IsSound {env} {ctx} {id} {a} h (Decided.rejects r) = reject_task-IsSound env ctx id a r h
Decided-IsSound {env} {ctx} {id} {a} h Decided.finishes = finish_task-IsSound env ctx id a h
Decided-IsSound {env} {ctx} {id} {a} h (Decided.cancels r) = cancel_task-IsSound env ctx id a r h

module _ (env : Env) (tb : TaskboardPlugin) (ctx : CommandContext) (hs : All IsSound tb.board) where
  swept-IsSound : All IsSound (swept env tb).board
  swept-IsSound = All-swept IsSound env tb (λ lt _. expire-IsSound lt) hs

  Effect-IsSound :
      {act : Action} {out : Outcome} → Effect env tb ctx act out → All IsSound out.2.board
  unfolding commit
  Effect-IsSound (Effect.idle r) = hs
  Effect-IsSound (Effect.sweeps r) = swept-IsSound
  Effect-IsSound (Effect.settles id a v f d) =
      settle-IsSound env (swept env tb) id v swept-IsSound
        (Decided-IsSound (Found-All IsSound (has_id id) (swept env tb).board a f swept-IsSound) d)
  Effect-IsSound (Effect.posts team description p e) =
      All-append IsSound tb.board _ hs (unfold new_live new_task is_leased in (ground arith, tt))

  -- A command keeps every task of the board sound.
  pub handle-IsSound : All IsSound (handle env tb ctx).1.board
  unfolding handle
  handle-IsSound = Effect-IsSound (dispatch-Effect env tb ctx (action_of ctx))

-- Commands one after the other, each with its own clock and caller.
unfoldable pub run : TaskboardPlugin → List (Env × CommandContext) → TaskboardPlugin
run tb [] = tb
run tb ((env, ctx) ∷ rest) = run (handle env tb ctx).1 rest

-- After any commands every task is sound if every task of the board was at the start: an open task
-- has no assignee, claim time, plan, approval or lease; a held one has an assignee; a planned or started one a
-- plan; a task in review a reviewer; and a lease runs exactly where the status wants one, but for a
-- task that awaits review, which may have one.
pub run-IsSound :
    (tb : TaskboardPlugin) (commands : List (Env × CommandContext))
    → All IsSound tb.board
    → All IsSound (run tb commands).board
unfolding run
run-IsSound tb [] hs = hs
run-IsSound tb ((env, ctx) ∷ rest) hs =
    run-IsSound (handle env tb ctx).1 rest (handle-IsSound env tb ctx hs)
