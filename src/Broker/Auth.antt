-- ===== src/Broker/Auth.antt =====
-- Tokens and joins in crates/room-daemon/src/broker/auth.rs, with `save_token_map` of token_store.rs.
-- A token is a fresh UUID; `uuid` is its text.
use room.Base.{
  String, ◌<>◌, Bool, true, false, not, ◌&&◌, ◌||◌, Option, none, some, if◌then◌else◌, is_some,
  ◌==◌,
}
use room.Base.Text.{strip_prefix}
use room.Base.Text.Codec.{Codec}
use room.Base.Dict.{Dict, get, insert, any_value, set_contains}
use room.Protocol.Rooms.{RoomConfig, RoomVisibility, public_room, private_room, unlisted, dm_room}
use room.Protocol.Events.{SubscriptionTier, full}
use room.Registry.State.{UserRegistry, Result, ok, err}
use room.Registry.State as Registry
use room.Registry.Users.{register_user_idempotent}
use room.Registry.Tokens as RegistryTokens
use room.Registry.Tokens.{has_token_for_user}

-- The tokens of the rooms, their file, the subscriptions, and the registry in daemon mode.
pub record AuthState : Type 0 where
  pub token_map : Dict String
  pub token_file : Option String
  pub subscription_map : Dict SubscriptionTier
  pub registry : Option UserRegistry

-- What `serde_json` and the file system do: `token_fault` is `none` for a write that succeeds, and
-- `some rest` for an error that leaves `rest`.
pub record Env : Type 0 where
  pub tokens : Codec (Dict String)
  pub token_fault : Option (Option String)
  pub of_registry : Registry.Env

unfoldable pub check_join_permission : String → Option RoomConfig → Result (Unit {0})
check_join_permission username none = ok tt
check_join_permission username (some config) = elim config.visibility [
  | public_room ↦ ok tt
  | private_room ↦
      if username == config.created_by || set_contains username config.invite_list
      then ok tt
      else err "permission denied: this room requires an invite to join"
  | unlisted ↦
      if username == config.created_by || set_contains username config.invite_list
      then ok tt
      else err "permission denied: this room requires an invite to join"
  | dm_room ↦
      if set_contains username config.invite_list
      then ok tt
      else err "permission denied: DM rooms are restricted to the two participants"
]

abbrev is_dm : RoomVisibility → Bool
is_dm dm_room = true
is_dm _ = false

unfoldable pub check_send_permission : String → Option RoomConfig → Result (Unit {0})
check_send_permission username none = ok tt
check_send_permission username (some config) =
    if is_dm config.visibility && not (set_contains username config.invite_list)
    then err "permission denied: only DM participants can send messages in this room"
    else ok tt

-- The file after `save_token_map`; its errors are only printed.
unfoldable pub save_token_map : Env → Dict String → Option String → Option String
save_token_map env map file = elim (env.tokens.encode map) [
  | none ↦ file
  | some json ↦ elim env.token_fault [ none ↦ some json | some rest ↦ rest ]
]

-- `persist` is whether there is a path to persist to.
unfoldable pub issue_token : Env → Bool → String → String → AuthState → Result String × AuthState
unfolding save_token_map
issue_token env persist uuid username auth =
    if any_value (λ u. u == username) auth.token_map
    then (err ("username_taken:" <> username), auth)
    else (let map = insert uuid username auth.token_map in
        (
          ok uuid,
          record auth {
            token_map = map;
            token_file =
                if persist then save_token_map env map auth.token_file else auth.token_file;
          },
        ))

unfoldable pub validate_token : String → AuthState → Option String
validate_token token auth =
    if is_some (strip_prefix "KICKED:" token) then none else get token auth.token_map

-- The calls on the registry: the registry after them, and the token.
unfoldable pub registry_token : Env → String → String → UserRegistry → Result String × UserRegistry
registry_token env uuid username reg =
    if has_token_for_user reg username
    then (err ("username_taken:" <> username), reg)
    else (let (registered, reg') = register_user_idempotent env.of_registry reg username in
        elim registered [
          | err e ↦ (err e, reg')
          | ok _ ↦ RegistryTokens.issue_token env.of_registry reg' uuid username
        ])

unfoldable pub issue_token_via_registry :
    Env → String → String → UserRegistry → AuthState → Result String × AuthState
unfolding registry_token
issue_token_via_registry env uuid username reg auth =
    let (issued, reg') = registry_token env uuid username reg in
    elim issued [
      | err e ↦ (err e, record auth { registry = some reg' })
      | ok token ↦ (
        ok token,
        record auth { token_map = insert token username auth.token_map; registry = some reg' },
      )
    ]

-- The responses on the socket.
pub data JoinResponse : Type 0 where
  join_denied : String → JoinResponse
  username_taken : String → JoinResponse
  token_issued : (token username : String) → JoinResponse

-- The end of both joins: where the response cannot be written, the subscription is not recorded.
abbrev respond : Bool → String → Result String → AuthState → JoinResponse × AuthState
respond delivered username (err _) auth = (username_taken username, auth)
respond delivered username (ok token) auth = (
  token_issued token username,
  if delivered
      then record auth { subscription_map = insert username full auth.subscription_map }
      else auth,
)

unfoldable pub handle_oneshot_join :
    Env → Bool → Bool → String → String → Option RoomConfig → AuthState → JoinResponse × AuthState
unfolding issue_token check_join_permission
handle_oneshot_join env delivered persist uuid username config auth =
    elim (check_join_permission username config) [
      | err reason ↦ (join_denied reason, auth)
      | ok _ ↦
          let (issued, auth') = issue_token env persist uuid username auth in
          respond delivered username issued auth'
    ]

unfoldable pub handle_oneshot_join_with_registry :
    Env
    → Bool
    → String
    → String
    → Option RoomConfig
    → UserRegistry
    → AuthState
    → JoinResponse × AuthState
unfolding issue_token_via_registry check_join_permission
handle_oneshot_join_with_registry env delivered uuid username config reg auth =
    elim (check_join_permission username config) [
      | err reason ↦ (join_denied reason, auth)
      | ok _ ↦
          let (issued, auth') = issue_token_via_registry env uuid username reg auth in
          respond delivered username issued auth'
    ]
