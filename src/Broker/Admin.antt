-- ===== src/Broker/Admin.antt =====
-- The host's commands in crates/room-daemon/src/broker/admin.rs. `J` stands for `serde_json::Value`.
use Prim.Native.Char.{code}
use room.Base.{
  ℕ, String, ◌<>◌, Bool, true, not, ◌&&◌, Option, none, some, List, [], if◌then◌else◌, is_some,
  is_some_of, keep, nat_eq, unwrap_or, ◌==◌,
}
use room.Base.Text.{strip_prefix, ends_with, is_empty_text}
use room.Base.Text.Blank.{trim}
use room.Base.Dict.{Dict, insert, remove, retain}
use room.Protocol.Message.{system}
use room.Registry.Tokens.{revoke_user_tokens}
use room.Broker.Auth.{AuthState, save_token_map}
use room.Broker.Auth as Auth
use room.Broker.Fanout.{Channel, broadcast_and_persist}
use room.Broker.Fanout as Fanout

-- The part of a room that the commands read and change. `token_files` are the names of the files in the
-- state directory, where it can be read; the three maps of `remove_status` are by user.
pub record RoomState : Type 0 where
  pub room_id : String
  pub channel : Channel
  pub auth : AuthState
  pub status_map : Dict String
  pub status_timestamps : Dict ℕ
  pub last_message_times : Dict ℕ
  pub token_files : List String
  pub shutdown : Bool

-- What the clock, the UUIDs and the writes of the files meet. `clear_fault` is whether the chat file
-- cannot be truncated.
pub record Env (J : Type 0) : Type 0 where
  pub utc : ℕ
  pub uuid : String
  pub clear_fault : Bool
  pub fanout : Fanout.Env J
  pub auth : Auth.Env

abbrev pub with_channel : RoomState → Channel → RoomState
with_channel state channel = record state { channel = channel }

abbrev pub with_auth : RoomState → AuthState → RoomState
with_auth state auth = record state { auth = auth }

-- `splitn(2, ' ')`: the part in front of the first space, and the part behind it.
unfoldable pub split_space : String → String × String
split_space String.[] = ("", "")
split_space (String.◌∷◌ c s) =
    let (front, behind) = split_space s in
    if nat_eq (code c) b' ' then ("", s) else (String.◌∷◌ c front, behind)

-- The name behind an `@`, if there is one.
unfoldable pub target_of : String → String
target_of arg = unwrap_or (strip_prefix "@" arg) arg

unfoldable pub remove_status : String → RoomState → RoomState
remove_status user state = record state {
  status_map = remove user state.status_map;
  status_timestamps = remove user state.status_timestamps;
  last_message_times = remove user state.last_message_times;
}

-- What a kick announces.
unfoldable pub kick_text : String → String → String
kick_text issuer target = issuer <> (" kicked " <> (target <> " (token invalidated)"))

module _ {J : Type 0} where
  -- `make_system(room_id, "broker", content)`, broadcast; an error is dropped.
  unfoldable pub announce : Env J → String → RoomState → RoomState
  announce env content state =
      with_channel state
        (broadcast_and_persist env.fanout
          (system env.uuid state.room_id "broker" env.utc none content none) state.channel).1

  -- The token map after `change`, saved, and in daemon mode the target's tokens in the registry revoked.
  unfoldable pub change_tokens : Env J → (Dict String → Dict String) → AuthState → AuthState
  change_tokens env change auth =
      let map = change auth.token_map in
      record auth { token_map = map; token_file = save_token_map env.auth map auth.token_file }

  unfoldable pub revoke_in_registry : Env J → String → AuthState → AuthState
  revoke_in_registry env target auth = elim auth.registry [
    | none ↦ auth
    | some reg ↦ record auth {
      registry = some (revoke_user_tokens env.auth.of_registry reg target).1;
    }
  ]

  unfoldable pub kick : Env J → String → String → RoomState → RoomState
  unfolding kick_text
  kick env issuer target state =
      let auth = revoke_in_registry env target (
        change_tokens env
          (λ map. insert ("KICKED:" <> target) target (retain (λ u. not (u == target)) map))
          state.auth) in
      announce env (kick_text issuer target) (remove_status target (with_auth state auth))

  unfoldable pub reauth : Env J → String → String → RoomState → RoomState
  reauth env issuer target state =
      let auth =
        revoke_in_registry env target
          (change_tokens env (retain (λ u. not (u == target))) state.auth) in
      let prefix = "room-" <> (state.room_id <> "-") in
      let files =
        keep
          (λ name.
            not
              (is_some (strip_prefix prefix name) && ends_with ("-" <> (target <> ".token")) name))
          state.token_files in
      announce env (issuer <> (" reauthed " <> (target <> " (token cleared, can rejoin)")))
        (record state { auth = auth; token_files = files })

  unfoldable pub clear_tokens : Env J → String → RoomState → RoomState
  clear_tokens env issuer state =
      let prefix = "room-" <> (state.room_id <> "-") in
      let files =
        keep (λ name. not (is_some (strip_prefix prefix name) && ends_with ".token" name))
          state.token_files in
      announce env (issuer <> " cleared all tokens (all users must rejoin)")
        (record state { auth = change_tokens env (λ _. []) state.auth; token_files = files })

  unfoldable pub exit : Env J → String → RoomState → RoomState
  exit env issuer state =
      let announced = announce env (issuer <> " is shutting down the room") state in
      record announced { shutdown = true }

  unfoldable pub clear : Env J → String → RoomState → RoomState
  clear env issuer state =
      if env.clear_fault
      then state
      else announce env (issuer <> " cleared chat history")
          (with_channel state (record state.channel { chat = some "" }))

  -- The commands by their name and argument.
  unfoldable pub run_command : Env J → String → String → String → RoomState → RoomState
  run_command env cmd arg issuer state =
      if cmd == "kick"
      then (if is_empty_text arg then state else kick env issuer (target_of arg) state)
      else if cmd == "reauth"
      then (if is_empty_text arg then state else reauth env issuer (target_of arg) state)
      else if cmd == "clear-tokens"
      then clear_tokens env issuer state
      else if cmd == "exit"
      then exit env issuer state
      else if cmd == "clear"
      then clear env issuer state
      else state

  -- The error, if any, and the room after the command.
  unfoldable pub handle_admin_cmd : Env J → String → String → RoomState → Option String × RoomState
  unfolding split_space
  handle_admin_cmd env cmd_line issuer state =
      if not (is_some_of state.channel.host_user issuer)
      then (some "permission denied: admin commands are restricted to the room host", state)
      else (
        none,
        run_command env (trim (split_space cmd_line).0) (trim (split_space cmd_line).1) issuer
            state,
      )
