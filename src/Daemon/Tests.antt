-- ===== src/Daemon/Tests.antt =====
-- Room ids and requests in a concrete daemon.
use room.Base.{if◌then◌else◌, ◌≡◌, ◌≤◌, ◌↔◌, true, false, not, ◌&&◌, none, some, [], ◌∷◌, ◌==◌}
use room.Base.Dict.{get}
use room.Base.Text.{contains, is_empty_text}
use room.Base.Text.Bytes.{len}
use room.Protocol.Message.{Message, message}
use room.Registry.State.{ok}
use room.Broker.Room.{Env}
use room.Daemon.RoomId.{validate_room_id, validate_room_id_iff, EveryChar, IsPlain}
use room.Daemon.Rooms.{
  DaemonState, Creation, CreateRequest, create_room_entry, destroy_room, has_room, new_room,
}
use room.Daemon.Lifecycle.{is_ok, is_signalled, OnlyRoom, IsFresh, rooms_lem}

abbrev hello : Message (Unit {0})
hello = message "u1" "lobby" "alice" 50 none "hello"

abbrev env : Env (Unit {0})
env = record {
  admin = record {
    utc = 9;
    uuid = "u0";
    clear_fault = false;
    fanout = record {
      codec = record { encode = λ m. some "{}"; decode = λ s. some hello };
      chat_fault = none;
    };
    auth = record {
      tokens = record { encode = λ d. some "{}"; decode = λ s. some [] };
      token_fault = none;
      of_registry = record {
        utc = 9;
        codec = record {
          encode = λ d. some "{}";
          decode = λ s. some (record { users = []; tokens = []; teams = [] });
        };
        save_fault = none;
      };
    };
  };
  stamps = λ n. record { uuid = "u2"; utc = 10 };
  tiers = record { encode = λ d. some "{}"; decode = λ s. some [] };
  filters = record { encode = λ d. some "{}"; decode = λ s. some [] };
  subscription_fault = none;
  event_filter_fault = none;
  alphanumeric = λ c. false;
  filter_error = λ s. "unknown event type";
}

abbrev creation : Creation (Unit {0})
creation = record { env = env; plugins_load = true; meta_json = "{}"; meta_fault = none }

abbrev empty_daemon : DaemonState
empty_daemon = record {
  rooms = [];
  token_map = ("t1", "alice") ∷ [];
  token_file = none;
  user_registry = record { contents = record { users = []; tokens = []; teams = [] }; file = none };
  files = λ room_id. record { chat = none; subscriptions = none; event_filters = none };
}

abbrev daemon : DaemonState
daemon = (create_room_entry creation "lobby" none empty_daemon).1

validate_room_id_iff_example : (validate_room_id "my-room" ≡ ok tt) ↔ (
    (is_empty_text "my-room" ≡ false)
    × (len "my-room" ≤ 64)
    × ("my-room" == "." ≡ false)
    × (contains ".." "my-room" ≡ false)
    × EveryChar IsPlain "my-room")
validate_room_id_iff_example = validate_room_id_iff "my-room"

rooms_lem_example :
    let (create, after) = create_room_entry creation "my-room" none daemon in
    let (destroy, later) = destroy_room "my-room" daemon in
    (OnlyRoom "my-room" daemon after
      × (get "my-room" after.rooms ≡ (
          if is_ok create
          then some (new_room creation "my-room" none daemon)
          else get "my-room" daemon.rooms))
      × (is_ok create ≡ (
          is_ok (validate_room_id "my-room")
          && not (has_room "my-room" daemon)
          && creation.plugins_load)))
    × IsFresh "my-room" none daemon (new_room creation "my-room" none daemon)
    × OnlyRoom "my-room" daemon later
    × (has_room "my-room" later ≡ false)
    × (is_ok destroy ≡ has_room "my-room" daemon)
    × (is_signalled destroy ≡ has_room "my-room" daemon)
rooms_lem_example = rooms_lem creation "my-room" daemon none

abbrev request : CreateRequest
request = record { visibility = "public"; invite = []; token = some "t9" }
