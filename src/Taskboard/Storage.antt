-- ===== src/Taskboard/Storage.antt =====
-- What the file of tasks holds after a command, and the start from it.
use room.Base.{
  ℕ, String, ◌≡◌, refl, ap, ◌∙◌, true, false, Option, none, some, List, [], ◌∷◌, arith, map, All,
  if◌then◌else◌,
}
use room.Base.Text.Codec.{IsEncoded, load_lines, load_lines-concat_lines}
use room.Taskboard.Task.{Task, LiveTask, Env, new_live, is_leased, load_tasks, save_tasks}
use room.Taskboard.State
use room.Taskboard.State.{TaskboardPlugin, tasks_of, commit}
use room.Taskboard.Verdict.{CommandContext, Verdict, refuse, accept}
use room.Taskboard.Handlers.{Outcome, settle}
use room.Taskboard.Effects.{Effect, dispatch-Effect}
use room.Taskboard.Plugin
use room.Taskboard.Plugin.{Action, is_broadcast, handle, action_of, dispatch}
use room.Taskboard.Sound.{IsSound, handle-IsSound}

-- A write that succeeds leaves a file from which exactly the written tasks are loaded.
load_tasks-save_tasks :
    (env : Env) (tasks : List Task) (file : Option String)
    → All (IsEncoded env.codec) tasks
    → env.write_fault ≡ none
    → load_tasks env (save_tasks env tasks file) ≡ tasks
load_tasks-save_tasks env tasks file ok written =
    let (ss, e, l) = load_lines-concat_lines env.codec tasks ok in
    unfold load_tasks save_tasks in rw (e, save_tasks, written) l

load_tasks-commit :
    (env : Env) (tb : TaskboardPlugin) (board : List LiveTask)
    → All (IsEncoded env.codec) (tasks_of board)
    → env.write_fault ≡ none
    → load_tasks env (commit env tb board).storage ≡ tasks_of (commit env tb board).board
unfolding commit
load_tasks-commit env tb board ok written = load_tasks-save_tasks env _ tb.storage ok written

-- A verdict that is accepted is written out.
settle-saved :
    (env : Env) (tb : TaskboardPlugin) (id : String) (v : Verdict)
    → All (IsEncoded env.codec) (tasks_of (settle env tb id v).2.board)
    → env.write_fault ≡ none
    → (settle env tb id v).1 ≡ true
    → load_tasks env (settle env tb id v).2.storage ≡ tasks_of (settle env tb id v).2.board
unfolding settle commit
settle-saved env tb id (refuse r) ok written h = cc
settle-saved env tb id (accept b r broadcast) ok written h = load_tasks-commit env tb _ ok written

module _ (env : Env) (tb : TaskboardPlugin) (ctx : CommandContext)
    (written : env.write_fault ≡ none) where
  Effect-saved :
      {act : Action} {out : Outcome}
      → Effect env tb ctx act out
      → All (IsEncoded env.codec) (tasks_of out.2.board)
      → out.1 ≡ true
      → load_tasks env out.2.storage ≡ tasks_of out.2.board
  unfolding commit
  Effect-saved (Effect.idle r) ok h = cc
  Effect-saved (Effect.sweeps r) ok h = cc
  Effect-saved (Effect.settles id a v f d) ok h = settle-saved env _ id v ok written h
  Effect-saved (Effect.posts team description p e) ok h = load_tasks-commit env tb _ ok written

  result-saved :
      (act : Action) (out : Outcome)
      → (out.1 ≡ true → load_tasks env out.2.storage ≡ tasks_of out.2.board)
      → is_broadcast
          (if out.1 then Plugin.broadcast (Plugin.event_of act) out.0 else Plugin.reply out.0)
        ≡ true
      → load_tasks env out.2.storage ≡ tasks_of out.2.board
  result-saved act (r, true, tb') k h = k refl
  result-saved act (r, false, tb') k h = cc

  -- After a command whose result is broadcast, where the file could be written, the tasks loaded from
  -- the file are the tasks of the board.
  pub handle-saved :
      All (IsEncoded env.codec) (tasks_of (handle env tb ctx).1.board)
      → is_broadcast (handle env tb ctx).0 ≡ true
      → load_tasks env (handle env tb ctx).1.storage ≡ tasks_of (handle env tb ctx).1.board
  unfolding handle
  handle-saved ok h =
      result-saved (action_of ctx) (dispatch (action_of ctx) env tb ctx)
        (Effect-saved (dispatch-Effect env tb ctx (action_of ctx)) ok) h

load_tasks-codec :
    (later env : Env)
    → later.codec ≡ env.codec
    → (file : Option String) → load_tasks later file ≡ load_tasks env file
unfolding load_tasks
load_tasks-codec later env same none = refl
load_tasks-codec later env same (some contents) = ap (λ c. load_lines c contents) same

new_live-IsSound : (env : Env) (lt : LiveTask) → IsSound lt → IsSound (new_live env lt.task)
unfolding new_live is_leased
new_live-IsSound env lt h = ground arith

map-new_live-IsSound :
    (env : Env) (lts : List LiveTask)
    → All IsSound lts
    → All IsSound (map (new_live env) (tasks_of lts))
map-new_live-IsSound env [] h = tt
map-new_live-IsSound env (lt ∷ lts) h =
    (new_live-IsSound env lt h.0, map-new_live-IsSound env lts h.1)

tasks_of-map-new_live :
    (env : Env) (tasks : List Task) → tasks_of (map (new_live env) tasks) ≡ tasks
unfolding new_live
tasks_of-map-new_live env [] = refl
tasks_of-map-new_live env (t ∷ ts) = ap (◌∷◌ t) (tasks_of-map-new_live env ts)

-- A plugin started from the file that a board was written to has the tasks of that board, and all of
-- them are sound if the board's were, with the leases begun anew.
restart-IsSound :
    (env : Env) (tb : TaskboardPlugin) (ttl : Option ℕ)
    → load_tasks env tb.storage ≡ tasks_of tb.board
    → All IsSound tb.board
    → (tasks_of (State.new env tb.storage ttl).board ≡ tasks_of tb.board)
      × All IsSound (State.new env tb.storage ttl).board
unfolding State.new
restart-IsSound env tb ttl saved h =
    (tasks_of-map-new_live env _ ∙ saved, rw saved (map-new_live-IsSound env tb.board h))

-- Where the file can be written and `serde_json` reads back the line it makes of each task of the board
-- as that task, a plugin that is stopped after a broadcast and started again from its file, at any
-- moment, has the same tasks, and all of them are sound if those before the command were.
pub handle-restart :
    (env later : Env) (tb : TaskboardPlugin) (ctx : CommandContext) (ttl : Option ℕ)
    → All (IsEncoded env.codec) (tasks_of (handle env tb ctx).1.board)
    → later.codec ≡ env.codec
    → env.write_fault ≡ none
    → All IsSound tb.board
    → is_broadcast (handle env tb ctx).0 ≡ true
    → let after = (handle env tb ctx).1 in
      let started = State.new later after.storage ttl in
      (tasks_of started.board ≡ tasks_of after.board) × All IsSound started.board
handle-restart env later tb ctx ttl ok same written h b =
    restart-IsSound later (handle env tb ctx).1 ttl
      (load_tasks-codec later env same (handle env tb ctx).1.storage
        ∙ handle-saved env tb ctx written ok b)
      (handle-IsSound env tb ctx h)
