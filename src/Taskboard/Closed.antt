-- ===== src/Taskboard/Closed.antt =====
-- Finished and cancelled tasks.
use room.Base.{
  ℕ, zero, suc, ◌≡◌, ap, ◌∙◌, true, false, some, List, [], ◌∷◌, ◌++◌, map, arith, get_elem?, nat_eq,
  Bool-cases, inl, inr,
}
use mathlib.Core.Option.{some-injective}
use room.Taskboard.Task.{LiveTask, Env, is_leased}
use room.Taskboard.State.{TaskboardPlugin, swept, sweep_task, must_expire}
use room.Taskboard.Sweep.{board-swept}
use room.Taskboard.Verdict.{CommandContext, is_closed}
use room.Taskboard.Moves.{Move}
use room.Taskboard.Steps.{CommandStep, handle-CommandStep}
use room.Taskboard.Plugin.{handle}
use room.Taskboard.Sound.{run}

sweep_task-closed :
    (env : Env) (ttl : ℕ) (lt : LiveTask)
    → is_closed lt.task.status ≡ true
    → sweep_task env ttl lt ≡ lt
unfolding sweep_task must_expire is_leased
sweep_task-closed env ttl lt h = ground arith

-- No step of the lifecycle starts from a closed task.
Move-not-closed :
    (ctx : CommandContext) (a b : LiveTask) → Move ctx a b → is_closed a.task.status ≡ false
Move-not-closed ctx a b (Move.claim m s t u) = ground arith
Move-not-closed ctx a b (Move.assign p m s t) = ground arith
Move-not-closed ctx a b (Move.plan p s t u) = ground arith
Move-not-closed ctx a b (Move.approve p s t u) = ground arith
Move-not-closed ctx a b (Move.update p s t) = ground arith
Move-not-closed ctx a b (Move.release p s t u) = ground arith
Move-not-closed ctx a b (Move.request_review p s t) = ground arith
Move-not-closed ctx a b (Move.claim_review p s t u) = ground arith
Move-not-closed ctx a b (Move.accept_review p s t u) = ground arith
Move-not-closed ctx a b (Move.reject p s t u v) = ground arith
Move-not-closed ctx a b (Move.finish p s t) = ground arith
Move-not-closed ctx a b (Move.cancel p s t) = s

module _ (lt : LiveTask) (closed : is_closed lt.task.status ≡ true) where
  at-sweep_task :
      (env : Env) (ttl : ℕ) (lts : List LiveTask) (i : ℕ)
      → get_elem? lts i ≡ some lt
      → get_elem? (map (sweep_task env ttl) lts) i ≡ some lt
  at-sweep_task env ttl [] i e = e
  at-sweep_task env ttl (x ∷ xs) zero e =
      ap some (ap (sweep_task env ttl) (some-injective _ _ e) ∙ sweep_task-closed env ttl lt closed)
  at-sweep_task env ttl (x ∷ xs) (suc i) e = at-sweep_task env ttl xs i e

  at-swept :
      (env : Env) (tb : TaskboardPlugin) (i : ℕ)
      → get_elem? tb.board i ≡ some lt
      → get_elem? (swept env tb).board i ≡ some lt
  at-swept env tb i e = elim (Bool-cases (nat_eq tb.lease_ttl 0)) [
    | inl z ↦ rw (board-swept, z) e
    | inr z ↦ rw (board-swept, z) (at-sweep_task env tb.lease_ttl tb.board i e)
  ]

  at-replace :
      (before behind : List LiveTask) (a b : LiveTask) (i : ℕ)
      → is_closed a.task.status ≡ false
      → get_elem? (before ++ (a ∷ behind)) i ≡ some lt
      → get_elem? (before ++ (b ∷ behind)) i ≡ some lt
  at-replace [] behind a b zero h e = ground arith
  at-replace [] behind a b (suc i) h e = e
  at-replace (x ∷ before) behind a b zero h e = e
  at-replace (x ∷ before) behind a b (suc i) h e = at-replace before behind a b i h e

  at-append :
      (xs ys : List LiveTask) (i : ℕ) → get_elem? xs i ≡ some lt → get_elem? (xs ++ ys) i ≡ some lt
  at-append [] ys i e = cc
  at-append (x ∷ xs) ys zero e = e
  at-append (x ∷ xs) ys (suc i) e = at-append xs ys i e

  CommandStep-closed :
      (env : Env) (tb : TaskboardPlugin) (ctx : CommandContext) (after : List LiveTask) (i : ℕ)
      → CommandStep env tb ctx after
      → get_elem? tb.board i ≡ some lt
      → get_elem? after i ≡ some lt
  CommandStep-closed env tb ctx after i (CommandStep.idle e) h = rw e h
  CommandStep-closed env tb ctx after i (CommandStep.sweeps e) h = rw e (at-swept env tb i h)
  CommandStep-closed env tb ctx after i (CommandStep.moves before behind a b p e m _) h =
      rw e
        (at-replace before behind a b i (Move-not-closed ctx a b m) (rw p at (at-swept env tb i h)))
  CommandStep-closed env tb ctx after i (CommandStep.posts x s p q e) h =
      rw e (at-append tb.board (x ∷ []) i h)

  -- A finished or cancelled task stands unchanged at its place in the board after any commands.
  pub run-closed :
      (tb : TaskboardPlugin) (commands : List (Env × CommandContext)) (i : ℕ)
      → get_elem? tb.board i ≡ some lt
      → get_elem? (run tb commands).board i ≡ some lt
  unfolding run
  run-closed tb [] i h = h
  run-closed tb ((env, ctx) ∷ rest) i h =
      run-closed (handle env tb ctx).1 rest i
        (CommandStep-closed env tb ctx _ i (handle-CommandStep env tb ctx) h)
