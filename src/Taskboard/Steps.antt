-- ===== src/Taskboard/Steps.antt =====
-- One command on the board as a whole, against the lifecycle of `Moves`.
use room.Base.{◌≡◌, refl, none, List, [], ◌∷◌, ◌++◌, Found}
use room.Taskboard.Task.{opened, LiveTask, Env, new_live}
use room.Taskboard.State.{TaskboardPlugin, commit, swept, has_id}
use room.Taskboard.Verdict.{CommandContext, Verdict, refuse, accept}
use room.Taskboard.Handlers.{Outcome, settle, new_task}
use room.Taskboard.Moves
use room.Taskboard.Moves.{Move, SameIdentity, IsLawful}
use room.Taskboard.Effects.{Decided, Effect, posted_live, dispatch-Effect}
use room.Taskboard.Plugin.{Action, handle, action_of}

-- The board after a command: as it was, as the sweep leaves it, with one task of the swept board
-- moved in its place, or with one open task of the sender's behind the others.
pub data CommandStep (env : Env) (tb : TaskboardPlugin) (ctx : CommandContext)
    (after : List LiveTask) : Type 0 where
  idle : after ≡ tb.board → CommandStep env tb ctx after
  sweeps : after ≡ (swept env tb).board → CommandStep env tb ctx after
  moves :
      (before behind : List LiveTask) (a b : LiveTask)
      → (swept env tb).board ≡ before ++ (a ∷ behind)
      → after ≡ before ++ (b ∷ behind)
      → Move ctx a b
      → SameIdentity a b
      → CommandStep env tb ctx after
  posts :
      (lt : LiveTask)
      → lt.task.status ≡ opened
      → lt.task.posted_by ≡ ctx.sender
      → lt.task.assigned_to ≡ none
      → after ≡ tb.board ++ (lt ∷ [])
      → CommandStep env tb ctx after

pub Decided-IsLawful :
    {env : Env} {ctx : CommandContext} {id : _} {a : LiveTask} {act : Action} {v : Verdict}
    → Decided env ctx id a act v
    → IsLawful ctx a v
Decided-IsLawful {env} {ctx} {id} {a} Decided.claims = Moves.claim_task-IsLawful env ctx id a
Decided-IsLawful {env} {ctx} {id} {a} (Decided.plans t) = Moves.plan_task-IsLawful env ctx id a t
Decided-IsLawful {env} {ctx} {id} {a} Decided.approves = Moves.approve_task-IsLawful env ctx id a
Decided-IsLawful {env} {ctx} {id} {a} (Decided.updates n) =
    Moves.update_task-IsLawful env ctx id a n
Decided-IsLawful {env} {ctx} {id} {a} Decided.releases = Moves.release_task-IsLawful env ctx id a
Decided-IsLawful {env} {ctx} {id} {a} (Decided.assigns t) =
    Moves.assign_task-IsLawful env ctx id a t
Decided-IsLawful {env} {ctx} {id} {a} Decided.requests =
    Moves.request_review_task-IsLawful env ctx id a
Decided-IsLawful {env} {ctx} {id} {a} Decided.reviews =
    Moves.review_claim_task-IsLawful env ctx id a
Decided-IsLawful {env} {ctx} {id} {a} (Decided.rejects r) =
    Moves.reject_task-IsLawful env ctx id a r
Decided-IsLawful {env} {ctx} {id} {a} Decided.finishes = Moves.finish_task-IsLawful env ctx id a
Decided-IsLawful {env} {ctx} {id} {a} (Decided.cancels r) =
    Moves.cancel_task-IsLawful env ctx id a r

module _ (env : Env) (tb : TaskboardPlugin) (ctx : CommandContext) where
  settle-Step :
      (id : _) (a : LiveTask) (v : Verdict)
      → Found (has_id id) (swept env tb).board a
      → IsLawful ctx a v
      → CommandStep env tb ctx (settle env (swept env tb) id v).2.board
  unfolding settle commit
  settle-Step id a (refuse r) f h = sweeps refl
  settle-Step id a (accept b r broadcast) f h =
      moves f.before f.behind a b f.parts (f.replaced b) h.0 h.1

  Effect-Step :
      {act : Action} {out : Outcome}
      → Effect env tb ctx act out
      → CommandStep env tb ctx out.2.board
  unfolding commit new_live new_task
  Effect-Step (Effect.idle r) = idle refl
  Effect-Step (Effect.sweeps r) = sweeps refl
  Effect-Step (Effect.settles id a v f d) = settle-Step id a v f (Decided-IsLawful d)
  Effect-Step (Effect.posts team description p e) =
      posts (posted_live env tb ctx team description) refl refl refl refl

  -- A command leaves the board as it was or as the sweep of expired leases leaves it, or moves exactly
  -- one task of the swept board by a step of the lifecycle that the sender may take, its id,
  -- description, poster, posting time and team unchanged and every other task untouched, or puts one
  -- unassigned open task posted by the sender behind the board.
  pub handle-CommandStep : CommandStep env tb ctx (handle env tb ctx).1.board
  unfolding handle
  handle-CommandStep = Effect-Step (dispatch-Effect env tb ctx (action_of ctx))
