-- ===== src/Poll/Cursor.antt =====
-- `poll_messages` and `pull_messages` of crates/room-cli/src/oneshot/poll/mod.rs, and the cursor file of
-- crates/room-cli/src/oneshot/token.rs. A file is `none` where it does not exist.
use room.Base.{
  ℕ, suc, ◌+◌, String, Bool, true, false, Option, none, some, List, [], ◌∷◌, if◌then◌else◌, ◌==◌,
  leb, keep, drop,
}
use room.Base.Text.{is_empty_text}
use room.Base.Text.Blank.{trim}
use room.Protocol.Message.{Message, id, is_visible_to}
use room.Broker.Fanout.{Env}
use room.History.File.{load, tail}

unfoldable pub read_cursor : Option String → Option String
read_cursor none = none
read_cursor (some s) = let t = trim s in if is_empty_text t then none else some t

-- What a write of the cursor meets: `none` is success, and `some rest` an error that leaves `rest` in the
-- file.
abbrev pub Fault : Type 0
Fault = Option (Option String)

unfoldable pub write_cursor : Fault → String → Option String → Bool × Option String
write_cursor none i cursor = (true, some i)
write_cursor (some rest) i cursor = (false, rest)

-- `iter().position(p)`
abbrev pub position : {A : Type 0} → (A → Bool) → List A → Option ℕ
position p [] = none
position p (x ∷ xs) =
    let rest = position p xs in
    if p x then some 0 else elim rest [ none ↦ none | some n ↦ some (suc n) ]

-- `last()`
abbrev pub last : {A : Type 0} → List A → Option A
last [] = none
last (x ∷ xs) = elim (last xs) [ none ↦ some x | some y ↦ some y ]

-- `since` if it is given, else what the cursor file holds.
unfoldable pub effective_since : Option String → Option String → Option String
unfolding read_cursor
effective_since none cursor = read_cursor cursor
effective_since (some s) cursor = some s

module _ {J : Type 0} where
  -- Whether the viewer, if one is given, sees the message.
  unfoldable pub seen_by : Option String → Option String → Message J → Bool
  seen_by none host m = true
  seen_by (some v) host m = is_visible_to m v host

  -- The index behind the message with the id, or 0.
  unfoldable pub start_at : Option String → List (Message J) → ℕ
  start_at none messages = 0
  start_at (some i) messages = elim (position (λ m. id m == i) messages) [
    | none ↦ 0
    | some n ↦ n + 1
  ]

  -- The messages, or `none` for an error of the cursor file, and the cursor file after it.
  unfoldable pub poll_messages :
      Env J
      → Fault
      → Option String
      → Option String
      → Option String
      → Option String
      → Option String
      → Option (List (Message J)) × Option String
  unfolding load seen_by start_at effective_since write_cursor
  poll_messages env fault chat cursor viewer host since =
      let messages = load env chat in
      let result =
        keep (seen_by viewer host)
          (drop (start_at (effective_since since cursor) messages) messages) in
      elim (last result) [
        | none ↦ (some result, cursor)
        | some m ↦
            let (ok, cursor') = write_cursor fault (id m) cursor in
            if ok then (some result, cursor') else (none, cursor')
      ]

  unfoldable pub pull_messages :
      Env J → Option String → ℕ → Option String → Option String → List (Message J)
  unfolding tail seen_by
  pull_messages env chat n viewer host =
      keep (seen_by viewer host) (tail env chat (if leb n 200 then n else 200))
