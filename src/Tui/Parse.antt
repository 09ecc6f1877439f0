-- ===== src/Tui/Parse.antt =====
-- crates/room-cli/src/tui/parse.rs.
use Prim.Native.Char.{code}
use room.Base.{
  ℕ, ◌-◌, ◌+◌, String, Bool, false, ◌||◌, Option, none, some, List, [], ◌∷◌, ◌++◌, if◌then◌else◌,
  ltb, nat_eq, ◌==◌, any,
}
use room.Base.Dict.{Dict, insert}
use room.Base.Text.{strip_prefix, is_empty_text, contains}
use room.Base.Text.Blank.{trim}
use room.Base.Text.Split.{split_once, strip_suffix, split_on, split_whitespace, replace}
use room.Broker.Admin.{split_space}
use room.Protocol.Events.{SubscriptionTier, parse_tier}
use room.Tui.Text.{◌>>=◌, slice, remove, insert_str}

-- `Action` of crates/room-cli/src/tui/input.rs
pub data Action : Type 0 where
  send : (payload : String) → Action
  quit next_tab prev_tab : Action
  switch_tab : (index : ℕ) → Action
  dm_room : (target_user content : String) → Action

unfoldable pub ends_with_backslash : String → Bool
ends_with_backslash String.[] = false
ends_with_backslash (String.◌∷◌ c String.[]) = nat_eq (code c) 92
ends_with_backslash (String.◌∷◌ c (String.◌∷◌ d s)) = ends_with_backslash (String.◌∷◌ d s)

-- The buffer and the new position, or `none` for a cursor that has no backslash in front of it; the outer
-- `none` is a panic.
unfoldable pub apply_backslash_enter : String → ℕ → Option (Option (String × ℕ))
unfolding slice ends_with_backslash remove insert_str
apply_backslash_enter buf cursor_pos =
    if ltb 0 cursor_pos
    then (slice 0 cursor_pos buf >>= λ before.
        if ends_with_backslash before
        then (let bs_pos = cursor_pos - 1 in
            remove bs_pos buf >>= λ removed.
            insert_str bs_pos "\n" removed >>= λ buf'. some (some (buf', bs_pos + 1)))
        else some none)
    else some none

unfoldable pub normalize_paste : String → String
unfolding replace
normalize_paste text = replace "\r" "\n" (replace "\r\n" "\n" text)

unfoldable pub parse_dm_input : String → Option Action
unfolding strip_prefix split_space
parse_dm_input input = strip_prefix "/dm " input >>= λ rest.
    let (target_user, content) = split_space rest in
    if is_empty_text target_user
    then none
    else if is_empty_text content
    then none
    else some (dm_room target_user content)

-- What `serde_json` is given.
pub data Payload : Type 0 where
  dm : (to content : String) → Payload
  command : (cmd : String) (params : List String) → Payload
  message : (content : String) → Payload

unfoldable pub payload_of : String → Payload
unfolding strip_prefix split_space split_whitespace
payload_of input = elim (strip_prefix "/dm " input) [
  | some rest ↦ let (to, content) = split_space rest in dm to content
  | none ↦ elim (strip_prefix "/" input) [
    | some rest ↦ let (cmd, params) = split_space rest in command cmd (split_whitespace params)
    | none ↦ message input
  ]
]

-- `to_json` is `serde_json::Value::to_string` of the payload's object.
unfoldable pub build_payload : (Payload → String) → String → String
unfolding payload_of
build_payload to_json input = to_json (payload_of input)

-- The loop over the entries of `/who`.
unfoldable pub seed_entries : List String → List String → Dict String → List String × Dict String
unfolding split_once trim
seed_entries [] online_users user_statuses = (online_users, user_statuses)
seed_entries (entry ∷ entries) online_users user_statuses =
    let parts : String × String = elim (split_once ": " entry) [
      | some (u, s) ↦ (trim u, trim s)
      | none ↦ (trim entry, "")
    ] in
    let skip = is_empty_text parts.0 || contains " " parts.0 in
    let known = any (λ u. u == parts.0) online_users in
    seed_entries entries (if skip || known then online_users else online_users ++ (parts.0 ∷ []))
      (if skip then user_statuses else insert parts.0 parts.1 user_statuses)

unfoldable pub seed_online_users_from_who :
    String → List String → Dict String → List String × Dict String
unfolding strip_prefix seed_entries split_on
seed_online_users_from_who content online_users user_statuses =
    elim (strip_prefix "online — " content) [
      | none ↦ (online_users, user_statuses)
      | some rest ↦ seed_entries (split_on ", " rest) online_users user_statuses
    ]

unfoldable pub parse_status_broadcast : String → Option (String × String)
unfolding strip_suffix split_once
parse_status_broadcast content = elim (strip_suffix " cleared their status" content) [
  | some rest ↦ some (rest, "")
  | none ↦ split_once " set status: " content
]

unfoldable pub parse_kick_broadcast : String → Option String
unfolding strip_suffix split_once
parse_kick_broadcast content = strip_suffix " (token invalidated)" content >>= λ rest.
    split_once " kicked " rest >>= λ (issuer, target).
    if is_empty_text target then none else some target

unfoldable pub parse_subscription_broadcast : String → Option (String × SubscriptionTier)
unfolding strip_suffix split_once parse_tier
parse_subscription_broadcast content = strip_suffix ")" content >>= λ rest.
    split_once " (tier: " rest >>= λ (name_room, tier_str).
    split_once " subscribed to " name_room >>= λ (name, room).
    if is_empty_text name then none else (parse_tier tier_str >>= λ tier. some (name, tier))

-- `from_json` reads an array of texts.
unfoldable pub parse_users_all_broadcast :
    (String → Option (List String)) → String → Option (List String)
unfolding strip_prefix
parse_users_all_broadcast from_json content =
    strip_prefix "users_all: " content >>= λ json_str. from_json json_str
