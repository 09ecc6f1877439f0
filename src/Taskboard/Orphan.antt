-- ===== src/Taskboard/Orphan.antt =====
-- A review that ends by `release` or by an expired lease. The handlers clear `reviewer` in `reject`
-- only, and `review_claim` refuses a task that names a reviewer.
use room.Base.{
  String, ◌≡◌, refl, Bool, true, false, arith, is_some, Bool-cases, inl, inr, unwrap_or,
}
use room.Taskboard.Task.{review_claimed, awaiting_review, LiveTask, Env, expire}
use room.Taskboard.Reply.{Reply}
use room.Taskboard.Verdict.{CommandContext, Verdict, refuse, accept, is_status}
use room.Taskboard.Work.{claim_task, plan_task, update_task, release_task, assign_task}
use room.Taskboard.Review.{
  approve_task, request_review_task, review_claim_task, reject_task, finish_task, cancel_task,
}
use room.Taskboard.Effects.{Decided}
use room.Taskboard.Plugin.{Action}

-- What becomes of one task: any accepted commands on it, and sweeps, in any order.
pub data Later (a : LiveTask) : LiveTask → Type 0 where
  now : Later a a
  decided :
      {b c : LiveTask} {v : Verdict} (env : Env) (ctx : CommandContext) (id : String) (act : Action)
      (r : Reply) (shared : Bool)
      → Later a b
      → Decided env ctx id b act v
      → v ≡ accept c r shared
      → Later a c
  expired : {b : LiveTask} → Later a b → Later a (expire b)

-- Not in review, and yet with a reviewer.
record IsOrphan (lt : LiveTask) : Type 0 where
  unreviewed : is_status lt.task.status review_claimed ≡ false
  named : is_some lt.task.reviewer ≡ true

abbrev IsOrphanAfter : Verdict → Type 0
IsOrphanAfter (refuse r) = Unit
IsOrphanAfter (accept b r shared) = IsOrphan b

Decided-IsOrphan :
    {env : Env} {ctx : CommandContext} {id : String} {a : LiveTask} {act : Action} {v : Verdict}
    → IsOrphan a
    → Decided env ctx id a act v
    → IsOrphanAfter v
unfolding claim_task plan_task approve_task update_task release_task assign_task request_review_task
    review_claim_task reject_task finish_task cancel_task
Decided-IsOrphan h Decided.claims = ground arith
Decided-IsOrphan h (Decided.plans t) = ground arith
Decided-IsOrphan h Decided.approves = ground arith
Decided-IsOrphan h (Decided.updates n) = ground arith
Decided-IsOrphan h Decided.releases = ground arith
Decided-IsOrphan h (Decided.assigns t) = ground arith
Decided-IsOrphan h Decided.requests = ground arith
Decided-IsOrphan h Decided.reviews = ground arith
Decided-IsOrphan h (Decided.rejects r) = ground arith
Decided-IsOrphan h Decided.finishes = ground arith
Decided-IsOrphan h (Decided.cancels r) = ground arith

expire-IsOrphan : (lt : LiveTask) → IsOrphan lt → IsOrphan (expire lt)
unfolding expire
expire-IsOrphan lt h = ground arith

accept-IsOrphan :
    (v : Verdict) (c : LiveTask) (r : Reply) (shared : Bool)
    → v ≡ accept c r shared
    → IsOrphanAfter v
    → IsOrphan c
accept-IsOrphan (refuse s) c r shared e h = cc
accept-IsOrphan (accept d s t) c r shared e h = ground arith

Later-IsOrphan : {a b : LiveTask} → IsOrphan a → Later a b → IsOrphan b
Later-IsOrphan h now = h
Later-IsOrphan h (decided {v = v} env ctx id act r shared l d e) =
    accept-IsOrphan v _ r shared e (Decided-IsOrphan (Later-IsOrphan h l) d)
Later-IsOrphan h (expired l) = expire-IsOrphan _ (Later-IsOrphan h l)

release-IsOrphan :
    (ctx : CommandContext) (id : String) (a : LiveTask)
    → is_status a.task.status review_claimed ≡ true
    → is_some a.task.reviewer ≡ true
    → IsOrphanAfter (release_task ctx id a)
unfolding release_task
release-IsOrphan ctx id a s n = ground arith

-- Nobody is reviewing the task, and nobody can start to.
abbrev pub IsUnreviewable : LiveTask → Type 0
IsUnreviewable lt =
    (is_status lt.task.status review_claimed ≡ false)
    × ((env : Env) (ctx : CommandContext) (id : String)
        → (r : Reply) × (review_claim_task env ctx id lt ≡ refuse r))

IsOrphan-IsUnreviewable : (lt : LiveTask) → IsOrphan lt → IsUnreviewable lt
unfolding review_claim_task
IsOrphan-IsUnreviewable lt h = (
  h.unreviewed,
  λ env ctx id. elim (Bool-cases (is_status lt.task.status awaiting_review)) [
    | inl e ↦ (
      Reply.already_reviewed id (unwrap_or lt.task.reviewer "unknown"),
      ground (arith, h.named, e),
    )
    | inr e ↦ (
      Reply.wrong_status id lt.task.status "must be in_review to claim for review",
      ground (arith, e),
    )
  ],
)

-- Once a task whose review was claimed, and which names its reviewer, has been released, its review is
-- never claimed again, whatever
-- commands on it are accepted after that and whatever leases expire: it may await a review again, but
-- every review_claim on it is refused, whoever sends it.
pub release_ends_review :
    (ctx : CommandContext) (id : String) (a b c : LiveTask) (r : Reply) (shared : Bool)
    → is_status a.task.status review_claimed ≡ true
    → is_some a.task.reviewer ≡ true
    → release_task ctx id a ≡ accept b r shared
    → Later b c
    → IsUnreviewable c
release_ends_review ctx id a b c r shared s n e l =
    IsOrphan-IsUnreviewable c
      (Later-IsOrphan (accept-IsOrphan _ b r shared e (release-IsOrphan ctx id a s n)) l)

expire-reviewed-IsOrphan : (a : LiveTask) → is_some a.task.reviewer ≡ true → IsOrphan (expire a)
unfolding expire
expire-reviewed-IsOrphan a n = record { unreviewed = refl; named = n }

-- Once the lease of a task with a reviewer has expired, the review of the task is never claimed again,
-- whatever commands on it are accepted after that and whatever leases expire: it may await a review
-- again, but every review_claim on it is refused, whoever sends it.
pub expire_ends_review :
    (a c : LiveTask) → is_some a.task.reviewer ≡ true → Later (expire a) c → IsUnreviewable c
expire_ends_review a c n l =
    IsOrphan-IsUnreviewable c (Later-IsOrphan (expire-reviewed-IsOrphan a n) l)
