-- ===== src/Queue/Store.antt =====
-- The backlog of crates/room-daemon/src/plugin/queue.rs and its file.
use room.Base.{ℕ, String, ◌<>◌, Bool, true, false, Option, none, some, List, [], ◌∷◌, unwrap_or}
use room.Base.Text.Codec.{Codec, load_lines, trimming}

pub record QueueItem : Type 0 where
  pub id : String
  pub description : String
  pub added_by : String
  pub added_at : ℕ
  pub status : String

-- `file` is what the file at `queue_path` holds, `none` where there is no such file.
pub record QueuePlugin : Type 0 where
  pub queue : List QueueItem
  pub file : Option String

-- The clock, a fresh UUID, `added_at.format("%Y-%m-%d %H:%M UTC")`, `serde_json`, and what a write
-- meets: `none` is success, and `some rest` an error that leaves `rest`.
pub record Env : Type 0 where
  pub utc : ℕ
  pub uuid : String
  pub show_time : ℕ → String
  pub codec : Codec QueueItem
  pub fault : Option (Option String)

unfoldable pub load_queue : Env → Option String → List QueueItem
load_queue env none = []
load_queue env (some contents) = load_lines (trimming env.codec) contents

unfoldable pub new : Env → Option String → QueuePlugin
unfolding load_queue
new env file = record { queue = load_queue env file; file = file }

-- Whether the append succeeds, and the file after it. The file is created before the item is encoded.
unfoldable pub append_item : Env → QueueItem → Option String → Bool × Option String
append_item env item file = elim env.fault [
  | some rest ↦ (false, rest)
  | none ↦ elim (env.codec.encode item) [
    | none ↦ (false, some (unwrap_or file ""))
    | some line ↦ (true, some (unwrap_or file "" <> (line <> "\n")))
  ]
]

-- The loop that writes the items behind `written`.
unfoldable pub write_items : Env → List QueueItem → String → Bool × String
write_items env [] written = (true, written)
write_items env (item ∷ items) written = elim (env.codec.encode item) [
  | none ↦ (false, written)
  | some line ↦ write_items env items (written <> (line <> "\n"))
]

-- `File::create` empties the file before the items are written.
unfoldable pub rewrite_queue_file : Env → List QueueItem → Bool × Option String
unfolding write_items
rewrite_queue_file env items = elim env.fault [
  | some rest ↦ (false, rest)
  | none ↦ let (done, written) = write_items env items "" in (done, some written)
]
