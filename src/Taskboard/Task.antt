-- ===== src/Taskboard/Task.antt =====
-- crates/room-plugin-taskboard/src/task.rs: tasks, their leases, their ids, and the file of tasks.
-- A `DateTime<Utc>` and an `Instant` are numbers of nanoseconds; `now` is what the clock shows.
use room.Base.{
  map, ℕ, ◌+◌, ◌-◌, ◌/◌, ◌%◌, ◌^◌, max, String, ◌<>◌, Bool, true, false, Option, none, some, List,
  [], ◌∷◌, leb, if◌then◌else◌, unwrap_or,
}
use room.Base.Text.{strip_prefix}
use room.Base.Text.Decimal.{parse_uint, to_decimal_padded}
use room.Base.Text.Lines.{concat_lines}
use room.Base.Text.Codec.{Codec, encode_all, load_lines}

pub data TaskStatus : Type 0 where
  opened claimed planned in_progress awaiting_review review_claimed finished cancelled : TaskStatus

-- `Display for TaskStatus`
unfoldable pub show_status : TaskStatus → String
show_status opened = "open"
show_status claimed = "claimed"
show_status planned = "planned"
show_status in_progress = "in_progress"
show_status awaiting_review = "in_review"
show_status review_claimed = "review_claimed"
show_status finished = "finished"
show_status cancelled = "cancelled"

pub record Task : Type 0 where
  pub id : String
  pub description : String
  pub status : TaskStatus
  pub posted_by : String
  pub assigned_to : Option String
  pub posted_at : ℕ
  pub claimed_at : Option ℕ
  pub plan : Option String
  pub approved_by : Option String
  pub approved_at : Option ℕ
  pub updated_at : Option ℕ
  pub notes : Option String
  pub team : Option String
  pub reviewer : Option String

pub record LiveTask : Type 0 where
  pub task : Task
  pub lease_start : Option ℕ

-- What the clocks show, and what a write of a file meets: `none` is success, and `some rest` an error
-- that leaves `rest` in the file.
pub record Env : Type 0 where
  pub instant : ℕ
  pub utc : ℕ
  pub write_fault : Option String
  pub codec : Codec Task

-- Claimed, Planned, InProgress or ReviewClaimed: the statuses that hold a lease.
unfoldable pub is_leased : TaskStatus → Bool
is_leased claimed = true
is_leased planned = true
is_leased in_progress = true
is_leased review_claimed = true
is_leased _ = false

-- `LiveTask::new`
unfoldable pub new_live : Env → Task → LiveTask
unfolding is_leased
new_live env t = record {
  task = t;
  lease_start = if is_leased t.status then some env.instant else none;
}

unfoldable pub renew_lease : Env → LiveTask → LiveTask
renew_lease env lt = record {
  task = record lt.task { updated_at = some env.utc };
  lease_start = some env.instant;
}

-- `start.elapsed().as_secs()`, which is 0 where the start is later
unfoldable pub elapsed_secs : Env → ℕ → ℕ
elapsed_secs env start = (env.instant - start) / 1_000_000_000

unfoldable pub is_expired : Env → ℕ → LiveTask → Bool
unfolding elapsed_secs
is_expired env ttl_secs lt = elim lt.lease_start [
  | none ↦ false
  | some start ↦ leb ttl_secs (elapsed_secs env start)
]

unfoldable pub expire : LiveTask → LiveTask
expire lt = record {
  task = record lt.task {
    status = opened;
    assigned_to = none;
    claimed_at = none;
    plan = none;
    approved_by = none;
    approved_at = none;
    notes = some "lease expired — auto-released";
  };
  lease_start = none;
}

unfoldable pub load_tasks : Env → Option String → List Task
load_tasks env none = []
load_tasks env (some contents) = load_lines env.codec contents

-- The file after `save_tasks`: nothing is written where a task has no text.
unfoldable pub save_tasks : Env → List Task → Option String → Option String
save_tasks env tasks file = elim (encode_all env.codec tasks) [
  | none ↦ file
  | some ls ↦ some (unwrap_or env.write_fault (concat_lines ls))
]

abbrev pub id_prefix : String
id_prefix = "tb-"

-- The number of an id `tb-<u32>`.
unfoldable pub id_number : String → Option ℕ
id_number id = elim (strip_prefix id_prefix id) [ none ↦ none | some s ↦ parse_uint (2 ^ 32) s ]

-- The largest number among the ids, 0 where there is none.
unfoldable pub max_id : List String → ℕ
max_id [] = 0
max_id (id ∷ ids) = elim (id_number id) [ none ↦ max_id ids | some n ↦ max n (max_id ids) ]

abbrev pub ids_of : List Task → List String
ids_of = map (λ t. t.id)

-- `max_num + 1` is computed in u32, and wraps around in a release build.
unfoldable pub next_id : List Task → String
next_id tasks = id_prefix <> to_decimal_padded 3 ((max_id (ids_of tasks) + 1) % 2 ^ 32)
