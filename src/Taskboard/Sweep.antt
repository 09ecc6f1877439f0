-- ===== src/Taskboard/Sweep.antt =====
-- The sweep of expired leases (`sweep_expired` of crates/room-plugin-taskboard/src/lib.rs).
use mathlib.Core.Path.{ap₂}
use room.Base.{
  ℕ, ◌≡◌, refl, false, List, [], ◌∷◌, arith, map, nat_eq, if◌then◌else◌, Bool-cases, inl, inr, All,
  keep, All-map,
}
use room.Taskboard.Task.{LiveTask, Env, is_expired, expire}
use room.Taskboard.State.{TaskboardPlugin, commit, swept, sweep_expired, sweep_task, must_expire}

-- The board after the sweep, whether it was written out or not.
pub board-swept :
    (env : Env) (tb : TaskboardPlugin)
    → (swept env tb).board
      ≡ (if nat_eq tb.lease_ttl 0 then tb.board else map (sweep_task env tb.lease_ttl) tb.board)
unfolding swept sweep_expired commit
board-swept env tb = ground arith

pub lease_ttl-swept : (env : Env) (tb : TaskboardPlugin) → (swept env tb).lease_ttl ≡ tb.lease_ttl
unfolding swept sweep_expired commit
lease_ttl-swept env tb = ground arith

module _ (P : LiveTask → Type 0) where
  sweep_task-keeps :
      (env : Env) (ttl : ℕ)
      → ((lt : LiveTask) → P lt → P (expire lt))
      → (lt : LiveTask) → P lt
      → P (sweep_task env ttl lt)
  unfolding sweep_task
  sweep_task-keeps env ttl h lt hl = elim (Bool-cases (must_expire env ttl lt)) [
    | inl e ↦ rw e (h lt hl)
    | inr e ↦ rw e hl
  ]

  -- What holds of every task, and of a task that a sweep resets, holds after the sweep.
  pub All-swept :
      (env : Env) (tb : TaskboardPlugin)
      → ((lt : LiveTask) → P lt → P (expire lt))
      → All P tb.board
      → All P (swept env tb).board
  All-swept env tb h hs = elim (Bool-cases (nat_eq tb.lease_ttl 0)) [
    | inl e ↦ rw (board-swept, e) hs
    | inr e ↦ rw (board-swept, e) (All-map P _ (sweep_task-keeps env tb.lease_ttl h) tb.board hs)
  ]

-- A task that has been swept is not swept again at the same moment.
must_expire-sweep_task :
    (env : Env) (ttl : ℕ) (lt : LiveTask) → must_expire env ttl (sweep_task env ttl lt) ≡ false
unfolding sweep_task
must_expire-sweep_task env ttl lt = elim (Bool-cases (must_expire env ttl lt)) [
  | inl e ↦ rw e (unfold must_expire is_expired expire in refl)
  | inr e ↦ rw e e
]

sweep_task_idem :
    (env : Env) (ttl : ℕ) (lt : LiveTask)
    → sweep_task env ttl (sweep_task env ttl lt) ≡ sweep_task env ttl lt
sweep_task_idem env ttl lt = let e = must_expire-sweep_task env ttl lt in unfold sweep_task in rw e

keep-map-sweep_task :
    (env : Env) (ttl : ℕ) (lts : List LiveTask)
    → keep (must_expire env ttl) (map (sweep_task env ttl) lts) ≡ []
keep-map-sweep_task env ttl [] = refl
keep-map-sweep_task env ttl (lt ∷ lts) = rw must_expire-sweep_task (keep-map-sweep_task env ttl lts)

map-sweep_task_idem :
    (env : Env) (ttl : ℕ) (lts : List LiveTask)
    → map (sweep_task env ttl) (map (sweep_task env ttl) lts) ≡ map (sweep_task env ttl) lts
map-sweep_task_idem env ttl [] = refl
map-sweep_task_idem env ttl (lt ∷ lts) =
    ap₂ ◌∷◌ (sweep_task_idem env ttl lt) (map-sweep_task_idem env ttl lts)

-- A second sweep at the same moment reports no task, writes nothing and leaves the plugin as it is.
pub sweep_expired_idem :
    (env : Env) (tb : TaskboardPlugin) → sweep_expired env (swept env tb) ≡ ([], swept env tb)
unfolding sweep_expired
sweep_expired_idem env tb = elim (Bool-cases (nat_eq tb.lease_ttl 0)) [
  | inl e ↦ rw (lease_ttl-swept, e)
  | inr e ↦ rw (lease_ttl-swept, e, board-swept, e, keep-map-sweep_task) (rw map-sweep_task_idem)
]
