-- ===== src/Broker/Session/Outsiders.antt =====
-- What a user who is not invited can do in a room for a direct message (session.rs and the commands of
-- crates/room-daemon/src/broker).
use room.Base.{String, ◌<>◌, ◌≡◌, false, none, some, List, arith, unwrap_or}
use room.Base.Text.{join}
use room.Base.Dict.{set_contains}
use room.Protocol.Message.{set_seq}
use room.Protocol.Rooms.{RoomConfig, dm_room}
use room.Registry.State.{err}
use room.Broker.Auth.{check_send_permission}
use room.Broker.Fanout.{append, persist_and_send, broadcast_and_persist, next_seq}
use room.Broker.Room.{Room, Env, broadcast, set_status}
use room.Broker.Commands.Status.{handle_set_status, announce_persisted, status_text, notice}

-- A room for a direct message to which the user is not invited.
pub record IsOutside (username : String) (room : Room) : Type 0 where
  pub config : RoomConfig
  pub configured : room.config ≡ some config
  pub for_dm : config.visibility ≡ dm_room
  pub uninvited : set_contains username config.invite_list ≡ false

module _ {J : Type 0} (env : Env J) (username : String) (room : Room) where
  pub send_refused :
      IsOutside username room
      → check_send_permission username room.config
        ≡ err "permission denied: only DM participants can send messages in this room"
  unfolding check_send_permission
  send_refused o = rw o.configured (ground (arith, o.for_dm, o.uninvited))

  -- A user who is not invited to a room for a direct message may not send in it, and yet the user's command
  -- set_status writes a message with its text to the chat of the room, where the chat file can be written
  -- and `serde_json` writes the message.
  pub outsider_sets_status :
      (params : List String) (json : String)
      → IsOutside username room
      → env.admin.fanout.chat_fault ≡ none
      → env.admin.fanout.codec.encode (
          set_seq
            (next_seq room.state.channel)
            (notice env (status_text username (join " " params)) room))
        ≡ some json
      → (check_send_permission username room.config
          ≡ err "permission denied: only DM participants can send messages in this room")
        × ((handle_set_status env params username room).1.state.channel.chat
            ≡ some (unwrap_or room.state.channel.chat "" <> (json <> "\n")))
  unfolding handle_set_status announce_persisted broadcast broadcast_and_persist persist_and_send
      append set_status
  outsider_sets_status params json o writes encoded =
      (send_refused o, ground (arith, writes, encoded))
