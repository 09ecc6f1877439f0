-- ===== src/Queue/Handlers.antt =====
-- The commands of crates/room-daemon/src/plugin/queue.rs.
use room.Base.{
  ℕ, suc, zero, ◌-◌, ◌^◌, String, ◌<>◌, Bool, Option, none, some, List, [], ◌∷◌, ◌++◌,
  if◌then◌else◌, unwrap_or, is_empty, get_elem?, drop, length, ltb, leb, ◌==◌,
}
use room.Base.Text.{join}
use room.Base.Text.Decimal.{to_decimal, parse_uint}
use room.Queue.Store.{QueueItem, QueuePlugin, Env, append_item, rewrite_queue_file}

-- `Ok(Reply(..))`, `Ok(Broadcast(..))`, or the error that `?` returns.
pub data PluginResult : Type 0 where
  reply broadcast : String → PluginResult
  failed : PluginResult

pub data Action : Type 0 where
  add list remove pop : Action
  unknown : String → Action

-- The words that `handle` matches on.
unfoldable pub parse_action : String → Action
parse_action a =
    if a == "add"
    then add
    else if a == "list"
    then list
    else if a == "remove"
    then remove
    else if a == "pop"
    then pop
    else unknown a

-- `format!`: the pieces in a row
format : List String → String
format = join ""

number : ℕ → String
number n = to_decimal n

-- `?` on the result of a write, and the broadcast that follows it
abbrev pub written : Bool → String → PluginResult
written done said = if done then broadcast said else failed

unfoldable pub new_item : Env → String → String → QueueItem
new_item env sender description = record {
  id = env.uuid;
  description = description;
  added_by = sender;
  added_at = env.utc;
  status = "queued";
}

unfoldable pub handle_add : Env → QueuePlugin → String → List String → PluginResult × QueuePlugin
unfolding new_item number format
handle_add env q sender [] = (reply "queue add: missing task description", q)
handle_add env q sender (word ∷ words) =
    let item = new_item env sender (join " " (word ∷ words)) in
    let queue = q.queue ++ (item ∷ []) in
    let (done, file) = append_item env item q.file in
    (
      written done (
          format (
            "queue: "
            ∷ sender
            ∷ " added \""
            ∷ item.description
            ∷ "\" (#"
            ∷ number (length queue)
            ∷ " in backlog)"
            ∷ [])),
      record { queue = queue; file = file },
    )

unfoldable item_line : Env → ℕ → QueueItem → String
unfolding number format
item_line env i item = format (
    "  "
    ∷ number i
    ∷ ". "
    ∷ item.description
    ∷ " (added by "
    ∷ item.added_by
    ∷ " at "
    ∷ env.show_time item.added_at
    ∷ ")"
    ∷ [])

item_lines : Env → ℕ → List QueueItem → List String
unfolding item_line
item_lines env i [] = []
item_lines env i (item ∷ items) = item_line env i item ∷ item_lines env (suc i) items

unfoldable pub handle_list : Env → QueuePlugin → PluginResult × QueuePlugin
unfolding number item_lines
handle_list env q = if is_empty q.queue then (reply "queue: backlog is empty", q) else (
  reply (
      join "\n" (
        ("queue: " <> (number (length q.queue) <> " item(s) in backlog"))
        ∷ item_lines env 1 q.queue)),
  q,
)

-- `queue.remove(i)` for an index in range.
unfoldable pub remove_at : ℕ → List QueueItem → List QueueItem
remove_at i [] = []
remove_at zero (x ∷ xs) = xs
remove_at (suc i) (x ∷ xs) = x ∷ remove_at i xs

-- `parse::<usize>()`, and at least 1
unfoldable pub parse_index : String → Option ℕ
parse_index s = elim (parse_uint (2 ^ 64) s) [
  | none ↦ none
  | some n ↦ if leb 1 n then some n else none
]

unfoldable pub handle_remove : Env → QueuePlugin → List String → PluginResult × QueuePlugin
unfolding number format parse_index remove_at
handle_remove env q rest = elim (parse_index (unwrap_or (get_elem? rest 0) "")) [
  | none ↦ (reply "queue remove: provide a valid 1-based index", q)
  | some index ↦ elim (if ltb (length q.queue) index then none else get_elem? q.queue (index - 1)) [
    | none ↦ (
      reply (
          format (
            "queue remove: index "
            ∷ number index
            ∷ " out of range (queue has "
            ∷ number (length q.queue)
            ∷ " item(s))"
            ∷ [])),
      q,
    )
    | some removed ↦
        let queue = remove_at (index - 1) q.queue in
        let (done, file) = rewrite_queue_file env queue in
        (
          written done (
              format (
                "queue: removed \"" ∷ removed.description ∷ "\" (was #" ∷ number index ∷ ")" ∷ [])),
          record { queue = queue; file = file },
        )
  ]
]

unfoldable pub handle_pop : Env → QueuePlugin → String → PluginResult × QueuePlugin
unfolding format
handle_pop env q sender = elim q.queue [
  | [] ↦ (reply "queue pop: backlog is empty, nothing to pop", q)
  | popped ∷ queue ↦
      let (done, file) = rewrite_queue_file env queue in
      (
        written done (format (sender ∷ " popped from queue: \"" ∷ popped.description ∷ "\"" ∷ [])),
        record { queue = queue; file = file },
      )
]

unfoldable pub dispatch :
    Action → Env → QueuePlugin → String → List String → PluginResult × QueuePlugin
dispatch add env q sender rest = handle_add env q sender rest
dispatch list env q sender rest = handle_list env q
dispatch remove env q sender rest = handle_remove env q rest
dispatch pop env q sender rest = handle_pop env q sender
dispatch (unknown a) env q sender rest =
    (reply ("queue: unknown action '" <> (a <> "'. use add, list, remove, or pop")), q)

-- `Plugin::handle`, by the sender and the parameters of the context
unfoldable pub handle : Env → QueuePlugin → String → List String → PluginResult × QueuePlugin
unfolding parse_action dispatch
handle env q sender params =
    dispatch (parse_action (unwrap_or (get_elem? params 0) "")) env q sender (drop 1 params)
