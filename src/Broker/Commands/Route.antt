-- ===== src/Broker/Commands/Route.antt =====
-- `route_command` of crates/room-daemon/src/broker/commands/mod.rs.
use room.Base.{
  ℕ, String, ◌<>◌, ◌||◌, Option, none, some, List, [], ◌∷◌, if◌then◌else◌, find, any, ◌==◌,
}
use room.Base.Text.{join}
use room.Protocol.Schema.{CommandInfo, name_of}
use room.Protocol.Message.{Message, command}
use room.Protocol.Rooms.{RoomVisibility}
use room.Registry.State.{ok, err}
use room.Broker.Admin.{handle_admin_cmd}
use room.Broker.Room.{Room, Env, with_state}
use room.Broker.Commands.Validate.{validate_params}
use room.Broker.Commands.Status.{
  CommandResult, handled, shutdown, passthrough, Outcome, reply_with, handle_set_status,
  handle_subscribe, handle_unsubscribe, handle_subscribe_events,
}
use room.Broker.Commands.Team.{handle_team}
use room.Broker.Commands.Reports.{
  who_text, who_verbose_text, subscriptions_text, all_names, handle_info,
}
use room.Broker.Commands.Help.{handle_help}

-- What the router meets: the schemas of `builtin_command_infos` and of the plugins; `dispatch` is
-- `dispatch_plugin` with the plugin that `resolve` finds, and `none` where there is none. `names_json`
-- and `show_visibility` are serde's texts, and `clock` chrono's.
pub record Host (J : Type 0) : Type 0 where
  pub builtins : List CommandInfo
  pub plugin_cmds : List CommandInfo
  pub dispatch : Message J → String → String → Room → Option (Option (CommandResult J) × Room)
  pub names_json : List String → Option String
  pub show_visibility : RoomVisibility → String
  pub clock : ℕ → String

abbrev pub admin_cmd_names : List String
admin_cmd_names = "kick" ∷ "reauth" ∷ "clear-tokens" ∷ "exit" ∷ "clear" ∷ []

module _ {J : Type 0} (host : Host J) (env : Env J) where
  unfoldable pub handle_who : List String → Room → Outcome env
  unfolding reply_with who_text who_verbose_text
  handle_who params room =
      if any (λ p. p == "--verbose" || p == "-v") params
      then reply_with env (who_verbose_text host.clock env.admin.utc room) room
      else reply_with env (who_text room.state.status_map) room

  unfoldable pub handle_who_all : Room → Outcome env
  unfolding reply_with all_names
  handle_who_all room = elim (host.names_json (all_names room)) [
    | none ↦ (none, room)
    | some json ↦ reply_with env ("users_all: " <> json) room
  ]

  unfoldable pub handle_admin : String → List String → String → Room → Outcome env
  unfolding handle_admin_cmd reply_with join
  handle_admin cmd params username room =
      let (error, state) =
        handle_admin_cmd env.admin (cmd <> (" " <> join " " params)) username room.state in
      let room' = with_state state room in
      elim error [
        | some e ↦ reply_with env e room'
        | none ↦ (some (if cmd == "exit" then shutdown else handled), room')
      ]

  -- The commands by their names, and otherwise the plugin's, or the message as it is.
  unfoldable pub run_named : Message J → String → List String → String → Room → Outcome env
  unfolding handle_who handle_who_all handle_set_status handle_subscribe handle_unsubscribe
      handle_subscribe_events subscriptions_text handle_info handle_help handle_team handle_admin
      reply_with
  run_named msg cmd params username room =
      if cmd == "who"
      then handle_who params room
      else if cmd == "who_all"
      then handle_who_all room
      else if cmd == "set_status"
      then handle_set_status env params username room
      else if cmd == "subscribe" || cmd == "set_subscription"
      then handle_subscribe env params username room
      else if cmd == "unsubscribe"
      then handle_unsubscribe env username room
      else if cmd == "subscribe_events" || cmd == "set_event_filter"
      then handle_subscribe_events env params username room
      else if cmd == "subscriptions"
      then reply_with env (subscriptions_text room) room
      else if cmd == "info" || cmd == "room-info"
      then reply_with env (handle_info host.show_visibility params room) room
      else if cmd == "help"
      then reply_with env (handle_help host.builtins host.plugin_cmds params) room
      else if cmd == "team"
      then handle_team env params username room
      else if any (λ n. n == cmd) admin_cmd_names
      then handle_admin cmd params username room
      else elim (host.dispatch msg username cmd room) [
        | none ↦ (some (passthrough msg), room)
        | some outcome ↦ outcome
      ]

  unfoldable pub route_command : Message J → String → Room → Outcome env
  unfolding validate_params run_named reply_with
  route_command (command id room_id user ts seq cmd params) username room =
      let msg = command id room_id user ts seq cmd params in
      elim (find (λ c. name_of c == cmd) host.builtins) [
        | none ↦ run_named msg cmd params username room
        | some info ↦ elim (validate_params params info) [
          | err e ↦ reply_with env e room
          | ok _ ↦ run_named msg cmd params username room
        ]
      ]
  route_command msg username room = (some (passthrough msg), room)
