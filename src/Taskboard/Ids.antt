-- ===== src/Taskboard/Ids.antt =====
-- The ids of the tasks: `next_id` of crates/room-plugin-taskboard/src/task.rs, and what the commands
-- do to the ids of a board.

use mathlib.Core.List.{map-append}
use room.Base.{
  ℕ, ◌+◌, ◌^◌, ◌≤◌, ◌<◌, max, String, ◌≡◌, ◌≢◌, refl, ap, ◌∙◌, ◌⊎◌, inl, inr, some, List, [], ◌∷◌,
  ◌++◌, map, arith, All, Distinct, Distinct-concat, length, Found, Bool-cases, nat_eq,
}
use room.Base.Text.{strip_prefix-append}
use room.Base.Text.Decimal.{parse_uint-to_decimal_padded}
use room.Taskboard.Task.{
  Task, LiveTask, Env, new_live, id_prefix, id_number, max_id, ids_of, next_id, expire,
}
use room.Taskboard.State.{TaskboardPlugin, tasks_of, commit, swept, sweep_task, must_expire, has_id}
use room.Taskboard.Sweep.{board-swept}
use room.Taskboard.Verdict.{CommandContext, Verdict, refuse, accept}
use room.Taskboard.Handlers.{Outcome, settle, new_task}
use room.Taskboard.Moves.{IsLawful}
use room.Taskboard.Effects.{Effect, dispatch-Effect}
use room.Taskboard.Steps.{Decided-IsLawful}
use room.Taskboard.Plugin.{Action, handle, action_of}
use room.Taskboard.Sound.{run}

id_number-next_id :
    (tasks : List Task)
    → max_id (ids_of tasks) + 1 < 2 ^ 32
    → id_number (next_id tasks) ≡ some (max_id (ids_of tasks) + 1)
unfolding next_id id_number
id_number-next_id tasks h =
    rw (strip_prefix-append id_prefix, id_number)
      (parse_uint-to_decimal_padded (2 ^ 32) 3 _ (omega arith) ∙ ap some (omega arith))

-- A number above the largest is not the number of an id.
above_max : (n : ℕ) (ids : List String) → max_id ids < n → All (λ id. id_number id ≢ some n) ids
unfolding max_id
above_max n [] h = tt
above_max n (id ∷ ids) h =
    let rest : max_id ids < n = ground arith in ((λ e. ground arith), above_max n ids rest)

fresh-among :
    (tasks : List Task) (ids : List String)
    → max_id (ids_of tasks) + 1 < 2 ^ 32
    → All (λ id. id_number id ≢ some (max_id (ids_of tasks) + 1)) ids
    → All (λ id. id ≢ next_id tasks) ids
fresh-among tasks [] h hs = tt
fresh-among tasks (id ∷ ids) h hs =
    ((λ e. hs.0 (ap id_number e ∙ id_number-next_id tasks h)), fresh-among tasks ids h hs.1)

-- While the largest number of an id is below 2^32 - 1, the next id is the id of no task.
pub next_id_fresh :
    (tasks : List Task)
    → max_id (ids_of tasks) + 1 < 2 ^ 32
    → All (λ id. id ≢ next_id tasks) (ids_of tasks)
next_id_fresh tasks h =
    fresh-among tasks (ids_of tasks) h (above_max _ (ids_of tasks) (omega arith))

abbrev pub board_ids : List LiveTask → List String
board_ids lts = ids_of (tasks_of lts)

ids-sweep_task :
    (env : Env) (ttl : ℕ) (lts : List LiveTask)
    → board_ids (map (sweep_task env ttl) lts) ≡ board_ids lts
unfolding sweep_task expire
ids-sweep_task env ttl [] = refl
ids-sweep_task env ttl (lt ∷ lts) = elim (Bool-cases (must_expire env ttl lt)) [
  | inl e ↦ rw e (ap (◌∷◌ lt.task.id) (ids-sweep_task env ttl lts))
  | inr e ↦ rw e (ap (◌∷◌ lt.task.id) (ids-sweep_task env ttl lts))
]

ids-swept : (env : Env) (tb : TaskboardPlugin) → board_ids (swept env tb).board ≡ board_ids tb.board
ids-swept env tb = elim (Bool-cases (nat_eq tb.lease_ttl 0)) [
  | inl e ↦ rw (board-swept, e)
  | inr e ↦ rw (board-swept, e) (ids-sweep_task env tb.lease_ttl tb.board)
]

ids-replace :
    (before behind : List LiveTask) (a b : LiveTask)
    → b.task.id ≡ a.task.id
    → board_ids (before ++ (b ∷ behind)) ≡ board_ids (before ++ (a ∷ behind))
ids-replace [] behind a b e = ap (λ i. i ∷ board_ids behind) e
ids-replace (x ∷ before) behind a b e = ap (◌∷◌ x.task.id) (ids-replace before behind a b e)

settle-ids :
    (env : Env) (tb : TaskboardPlugin) (ctx : CommandContext) (id : String) (a : LiveTask)
    (v : Verdict)
    → Found (has_id id) tb.board a
    → IsLawful ctx a v
    → board_ids (settle env tb id v).2.board ≡ board_ids tb.board
unfolding settle commit
settle-ids env tb ctx id a (refuse r) f h = refl
settle-ids env tb ctx id a (accept b r broadcast) f h =
    rw (f.replaced b, f.parts) (ids-replace f.before f.behind a b h.1.id)

module _ (env : Env) (tb : TaskboardPlugin) (ctx : CommandContext) where
  -- A command leaves the ids as they are, or puts the next id behind them.
  abbrev IdsAfter : List LiveTask → Type 0
  IdsAfter after =
      (board_ids after ≡ board_ids tb.board)
      ⊎ (board_ids after ≡ board_ids tb.board ++ (next_id (tasks_of tb.board) ∷ []))

  Effect-ids : {act : Action} {out : Outcome} → Effect env tb ctx act out → IdsAfter out.2.board
  unfolding commit new_live new_task
  Effect-ids (Effect.idle r) = inl refl
  Effect-ids (Effect.sweeps r) = inl (ids-swept env tb)
  Effect-ids (Effect.settles id a v f d) =
      inl (settle-ids env (swept env tb) ctx id a v f (Decided-IsLawful d) ∙ ids-swept env tb)
  Effect-ids (Effect.posts team description p e) = inr (rw (map-append, map-append))

  handle-ids : IdsAfter (handle env tb ctx).1.board
  unfolding handle
  handle-ids = Effect-ids (dispatch-Effect env tb ctx (action_of ctx))

max_id-concat :
    (ids : List String) (id : String) (n : ℕ)
    → id_number id ≡ some n
    → max_id (ids ++ (id ∷ [])) ≡ max (max_id ids) n
unfolding max_id
max_id-concat [] id n e = ground arith
max_id-concat (i ∷ ids) id n e = ground (arith, max_id-concat ids id n e)

-- What one command does to ids that are distinct, with room for one more number.
record GrowsBy (k : ℕ) (before after : List String) : Type 0 where
  distinct : Distinct after
  bounded : max_id after ≤ max_id before + k

IdsAfter-GrowsBy :
    (env : Env) (tb : TaskboardPlugin) (ctx : CommandContext) (after : List LiveTask)
    → Distinct (board_ids tb.board)
    → max_id (board_ids tb.board) + 1 < 2 ^ 32
    → IdsAfter env tb ctx after
    → GrowsBy 1 (board_ids tb.board) (board_ids after)
IdsAfter-GrowsBy env tb ctx after d h (inl e) = record {
  distinct = rw e d;
  bounded = rw e (omega arith);
}
IdsAfter-GrowsBy env tb ctx after d h (inr e) = record {
  distinct = rw e (Distinct-concat _ (board_ids tb.board) d (next_id_fresh (tasks_of tb.board) h));
  bounded =
      rw (e, max_id-concat (board_ids tb.board) _ _ (id_number-next_id (tasks_of tb.board) h))
        (omega arith);
}

-- As long as the largest number of an id and the number of commands stay below 2^32 together, the ids
-- of the board are distinct after the commands if they were before.
pub run-Distinct :
    (tb : TaskboardPlugin) (commands : List (Env × CommandContext))
    → Distinct (board_ids tb.board)
    → max_id (board_ids tb.board) + length commands < 2 ^ 32
    → Distinct (board_ids (run tb commands).board)
unfolding run
run-Distinct tb [] d h = d
run-Distinct tb ((env, ctx) ∷ rest) d h =
    let g =
      IdsAfter-GrowsBy env tb ctx (handle env tb ctx).1.board d (omega arith)
        (handle-ids env tb ctx) in
    run-Distinct (handle env tb ctx).1 rest g.distinct (omega (arith, g.bounded))
