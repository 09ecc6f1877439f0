-- ===== src/Plugins/Crossing.antt =====
-- Who reaches another room by `--room` (crates/room-daemon/src/broker/commands/plugin.rs).
use room.Base.{ℕ, String, ◌<>◌, ◌≡◌, refl, ap, Option, none, some, List, arith, unwrap_or}
use room.Protocol.Message.{command, set_seq}
use room.Registry.State.{err}
use room.Broker.Auth.{check_send_permission}
use room.Broker.Fanout.{append, persist_and_send, broadcast_and_persist, next_seq}
use room.Broker.Room.{Room, Env, broadcast}
use room.Broker.Session.Outsiders.{IsOutside, send_refused}
use room.Plugins.Host.{Plugin, resolve}
use room.Plugins.Flag.{extract_room_flag}
use room.Plugins.Dispatch.{
  Run, returned, broadcast_to, Target, plugin_message, run_plugin_with_catch,
  translate_plugin_result, refusal, run_in, checked_run, dispatch_cross_room, dispatch_plugin,
}

module _ {J : Type 0} (env : Env J)
    (run : Plugin → String → String → List String → Room → Run J × Room)
    (resolve_room : String → Option Target) (target : Target) (room : Room) where
  -- A user who may not send in a room for a direct message runs a plugin's command there by the flag
  -- `--room`: where the id leads to that room, the command is a plugin's there with parameters that fit,
  -- and the plugin answers this sender with a broadcast that can be written, the other room's chat gets
  -- it, and the sender's room stays as it is.
  pub outsider_crosses :
      (username id room_id : String) (ts : ℕ) (seq : Option ℕ) (cmd target_id content json : String)
      (params cleaned : List String) (plugin other : Plugin)
      → IsOutside username target.room
      → resolve_room target_id ≡ some target
      → extract_room_flag params ≡ some (target_id, cleaned)
      → resolve cmd target.registry ≡ some (some plugin)
      → refusal plugin cmd cleaned ≡ none
      → run plugin username cmd cleaned target.room
        ≡ (returned (broadcast_to content none), target.room)
      → env.admin.fanout.chat_fault ≡ none
      → env.admin.fanout.codec.encode (
          set_seq
            (next_seq target.room.state.channel)
            (plugin_message env target.room.state.room_id plugin.name content none))
        ≡ some json
      → let (result, source, after) =
          dispatch_plugin env run
            (some resolve_room)
            other
            (command id room_id username ts seq cmd params)
            username
            room in
        (source ≡ room)
        × ((t : Room) × (after ≡ some t)
            × (t.state.channel.chat
                ≡ some (unwrap_or target.room.state.channel.chat "" <> (json <> "\n"))))
        × (check_send_permission username target.room.config
            ≡ err "permission denied: only DM participants can send messages in this room")
  unfolding dispatch_plugin dispatch_cross_room checked_run run_in run_plugin_with_catch
      translate_plugin_result broadcast broadcast_and_persist persist_and_send append
  outsider_crosses username id room_id ts seq cmd target_id content json params cleaned plugin other
        o reached flag found fits runs writes encoded =
      let room' = (run plugin username cmd cleaned target.room).1 in
      let same : room' ≡ target.room = ap (λ r. r.1) runs in
      let after =
        (translate_plugin_result env (broadcast_to content none) plugin.name room'
          (some (room.state.room_id, target_id))).1 in
      (
        rw (dispatch_plugin, flag) refl,
        rw
            (
              dispatch_plugin, flag, dispatch_cross_room, reached, found, checked_run, fits, run_in,
              runs,
            )
            (after, refl, ground (arith, same, writes, encoded)),
        send_refused env username target.room o,
      )
