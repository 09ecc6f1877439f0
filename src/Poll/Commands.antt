-- ===== src/Poll/Commands.antt =====
-- `apply_sort_and_limit`, `cmd_query` and its history mode of
-- crates/room-cli/src/oneshot/poll/commands.rs. What is printed is the messages themselves.
use room.Base.{
  ℕ, zero, suc, String, ◌<>◌, Bool, true, false, ◌||◌, Option, none, some, List, [], ◌∷◌, ◌++◌,
  if◌then◌else◌, keep, ltb, ◌==◌,
}
use room.Protocol.Message.{Message, direct_message, message, system, ts, room_of}
use room.Protocol.MessageId.{format_message_id}
use room.Registry.State.{Result, ok, err}
use room.Query.Filter.{QueryFilter, matches}
use room.Broker.Fanout.{Env}
use room.History.File.{load}
use room.Poll.Filters.{Files, apply_per_room_tier_filter, apply_per_room_event_filter}

-- `truncate`
abbrev pub truncate : {A : Type 0} → ℕ → List A → List A
truncate n [] = []
truncate zero (x ∷ xs) = []
truncate (suc n) (x ∷ xs) = x ∷ truncate n xs

module _ {J : Type 0} where
  -- Whether the order of the filter wants `b` before `a`.
  unfoldable pub is_after : Bool → Message J → Message J → Bool
  is_after ascending a b = if ascending then ltb (ts b) (ts a) else ltb (ts a) (ts b)

  unfoldable pub insert_sorted : Bool → Message J → List (Message J) → List (Message J)
  unfolding is_after
  insert_sorted ascending a [] = a ∷ []
  insert_sorted ascending a (b ∷ ms) =
      let rest = insert_sorted ascending a ms in
      if is_after ascending a b then b ∷ rest else a ∷ b ∷ ms

  -- `sort_by` on the timestamps, a stable sort
  unfoldable pub sort_by_ts : Bool → List (Message J) → List (Message J)
  unfolding insert_sorted
  sort_by_ts ascending [] = []
  sort_by_ts ascending (m ∷ ms) = insert_sorted ascending m (sort_by_ts ascending ms)

  -- The messages up to the limit, if there is one.
  unfoldable pub up_to : Option ℕ → List (Message J) → List (Message J)
  up_to none ms = ms
  up_to (some n) ms = truncate n ms

  unfoldable pub apply_sort_and_limit : List (Message J) → QueryFilter → List (Message J)
  unfolding sort_by_ts up_to
  apply_sort_and_limit messages f = up_to f.limit (sort_by_ts f.ascending messages)

  -- Direct messages are for their sender and their recipient.
  unfoldable pub is_own : String → Message J → Bool
  is_own username (direct_message i r user t s to c) = user == username || to == username
  is_own username _ = true

  unfoldable pub load_all : Env J → (String → Option String) → List String → List (Message J)
  unfolding load
  load_all env chats [] = []
  load_all env chats (r ∷ room_ids) = load env (chats r) ++ load_all env chats room_ids

  -- The end of the history mode: an error where one message was asked for and not found.
  unfoldable pub report : Option (String × ℕ) → List (Message J) → Result (List (Message J))
  report (some (room, seq)) [] = err ("message not found: " <> format_message_id room seq)
  report target_id ms = ok ms

  unfoldable pub cmd_query_history :
      (ℕ → Bool)
      → Env J
      → Files
      → (String → Option String)
      → List String
      → String
      → QueryFilter
      → Result (List (Message J))
  unfolding load_all is_own apply_sort_and_limit report
  cmd_query_history alphanumeric env files chats room_ids username f =
      let matching =
        keep (is_own username)
          (keep (λ m. matches alphanumeric f m (room_of m)) (load_all env chats room_ids)) in
      let filtered =
        if f.public_only
        then matching
        else apply_per_room_event_filter files
            (apply_per_room_tier_filter alphanumeric files matching room_ids username) room_ids
            username in
      report f.target_id (apply_sort_and_limit filtered f)

  -- The messages that end a wait.
  unfoldable pub is_foreign : String → Message J → Bool
  is_foreign username (message i r user t s c) = if user == username then false else true
  is_foreign username (system i r user t s c d) = if user == username then false else true
  is_foreign username (direct_message i r user t s to c) = to == username
  is_foreign username _ = false
