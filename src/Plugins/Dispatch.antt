-- ===== src/Plugins/Dispatch.antt =====
-- `dispatch_plugin` of crates/room-daemon/src/broker/commands/plugin.rs. `J` stands for
-- `serde_json::Value`.
use room.Base.{String, ◌<>◌, Option, none, some, List, find, ◌==◌}
use room.Protocol.Message.{Message, command, system}
use room.Protocol.Schema.{name_of}
use room.Registry.State.{ok, err}
use room.Broker.Room.{Room, Env, broadcast}
use room.Broker.Commands.Validate.{validate_params}
use room.Broker.Commands.Status.{
  CommandResult, handled, handled_with_reply, reply, passthrough, Outcome, reply_with,
}
use room.Plugins.Host.{Plugin, PluginRegistry, resolve}
use room.Plugins.Flag.{extract_room_flag}

-- `PluginResult`, as the host sees it.
pub data PluginResult (J : Type 0) : Type 0 where
  reply_to broadcast_to : (text : String) (payload : Option J) → PluginResult J
  done : PluginResult J

-- Another room, with its plugins.
pub record Target : Type 0 where
  pub registry : PluginRegistry
  pub room : Room

-- How a plugin's handler ends.
pub data Run (J : Type 0) : Type 0 where
  returned : PluginResult J → Run J
  failed : Run J
  panicked : (msg : String) → Run J
  timed_out : Run J

unfoldable pub tagged : Option (String × String) → String → String
tagged none content = content
tagged (some (source, target)) content = "[→" <> (target <> ("] " <> content))

unfoldable pub source_of : Option (String × String) → String → String
source_of none room_id = room_id
source_of (some (source, target)) room_id = source

-- The refusal of parameters that do not fit the plugin's schema.
unfoldable pub refusal : Plugin → String → List String → Option String
unfolding validate_params
refusal plugin cmd params = elim (find (λ c. name_of c == cmd) plugin.commands) [
  | none ↦ none
  | some info ↦ elim (validate_params params info) [ ok _ ↦ none | err e ↦ some e ]
]

module _ {J : Type 0} where
  -- `run_plugin_with_catch`: a panic and a timeout are replies, and an error stays one.
  unfoldable pub run_plugin_with_catch : Plugin → Run J → Option (PluginResult J)
  run_plugin_with_catch plugin (returned r) = some r
  run_plugin_with_catch plugin failed = none
  run_plugin_with_catch plugin (panicked msg) =
      some (reply_to ("plugin '" <> (plugin.name <> ("' panicked: " <> msg))) none)
  run_plugin_with_catch plugin timed_out =
      some (reply_to ("plugin '" <> (plugin.name <> "' timed out after 30s")) none)

  -- `make_system` and `make_system_with_data`
  abbrev pub plugin_message : Env J → String → String → String → Option J → Message J
  plugin_message env room_id plugin_name content payload =
      system (env.stamps 0).uuid room_id ("plugin:" <> plugin_name) (env.stamps 0).utc none content
        payload

  -- On the room where the command ran; `cross_room` are the ids of the rooms of the sender and the
  -- command.
  unfoldable pub translate_plugin_result :
      (env : Env J) → PluginResult J → String → Room → Option (String × String) → Outcome env
  unfolding tagged source_of broadcast
  translate_plugin_result env (reply_to content payload) plugin_name room cross_room =
      let sys =
        plugin_message env (source_of cross_room room.state.room_id) plugin_name
          (tagged cross_room content) payload in
      elim (env.admin.fanout.codec.encode sys) [
        | none ↦ (none, room)
        | some json ↦ (some (reply json), room)
      ]
  translate_plugin_result env (broadcast_to content payload) plugin_name room cross_room =
      let (sent, room') =
        broadcast env (plugin_message env room.state.room_id plugin_name content payload) room in
      elim sent [
        | none ↦ (none, room')
        | some msg ↦ elim (env.admin.fanout.codec.encode msg) [
          | none ↦ (none, room')
          | some json ↦ (some (handled_with_reply json), room')
        ]
      ]
  translate_plugin_result env done plugin_name room cross_room = (some handled, room)

  -- Runs the command of the user against the room. `run` is the plugin's handler on the context of the
  -- command: the sender, the command, its parameters and the room, to which a plugin writes itself too;
  -- the id and the time of the message are fixed in it.
  unfoldable pub run_in :
      (env : Env J)
      → (Plugin → String → String → List String → Room → Run J × Room)
      → Plugin
      → String
      → String
      → List String
      → Room
      → Option (String × String)
      → Outcome env
  unfolding run_plugin_with_catch translate_plugin_result
  run_in env run plugin username cmd params room cross_room =
      let (ended, room') = run plugin username cmd params room in
      elim (run_plugin_with_catch plugin ended) [
        | none ↦ (none, room')
        | some result ↦ translate_plugin_result env result plugin.name room' cross_room
      ]

  -- Checks the parameters and runs the command against the room; a refusal is told in the room with the id
  -- `reply_room`.
  unfoldable pub checked_run :
      (env : Env J)
      → (Plugin → String → String → List String → Room → Run J × Room)
      → Plugin
      → String
      → String
      → List String
      → String
      → Room
      → Option (String × String)
      → Outcome env
  unfolding refusal run_in
  checked_run env run plugin username cmd params reply_room room cross_room =
      elim (refusal plugin cmd params) [
        | none ↦ run_in env run plugin username cmd params room cross_room
        | some e ↦
            elim (env.admin.fanout.codec.encode
              (plugin_message env reply_room plugin.name e none)) [
                | none ↦ (none, room)
                | some json ↦ (some (reply json), room)
              ]
      ]

  -- The answer of the broker, with no room changed.
  abbrev pub answered : (env : Env J) → String → Room → Option (CommandResult J) × Option Room
  answered env content source = ((reply_with env content source).0, none)

  -- `resolver` is the cross-room resolver in daemon mode, and `username` the user of the session. The result, and the room with the id `target_id`
  -- after it where it was changed; a panic of `resolve` ends the call.
  unfoldable pub dispatch_cross_room :
      Env J
      → (Plugin → String → String → List String → Room → Run J × Room)
      → Option (String → Option Target)
      → String
      → List String
      → String
      → String
      → Room
      → Option (CommandResult J) × Option Room
  unfolding reply_with resolve checked_run
  dispatch_cross_room env run none cmd params username target_id source =
      answered env "cross-room commands are only available in daemon mode" source
  dispatch_cross_room env run (some resolve_room) cmd params username target_id source =
      elim (resolve_room target_id) [
        | none ↦ answered env ("room not found: " <> target_id) source
        | some target ↦ elim (resolve cmd target.registry) [
          | none ↦ (none, none)
          | some none ↦
              answered env ("command /" <> (cmd <> (" not found in room " <> target_id))) source
          | some (some plugin) ↦
              let (result, room) =
                checked_run env run plugin username cmd params source.state.room_id target.room
                  (some (source.state.room_id, target_id)) in
              (result, some room)
        ]
      ]

  -- The result, the sender's room, and the other room where it was changed.
  unfoldable pub dispatch_plugin :
      Env J
      → (Plugin → String → String → List String → Room → Run J × Room)
      → Option (String → Option Target)
      → Plugin
      → Message J
      → String
      → Room
      → Option (CommandResult J) × Room × Option Room
  unfolding extract_room_flag dispatch_cross_room checked_run
  dispatch_plugin env run resolver plugin (command id room_id user ts seq cmd params) username
        room =
      elim (extract_room_flag params) [
        | some (target_id, cleaned) ↦
            let (result, target) =
              dispatch_cross_room env run resolver cmd cleaned username target_id room in
            (result, room, target)
        | none ↦
            let (result, room') =
              checked_run env run plugin username cmd params room.state.room_id room none in
            (result, room', none)
      ]
  dispatch_plugin env run resolver plugin msg username room = (some (passthrough msg), room, none)
