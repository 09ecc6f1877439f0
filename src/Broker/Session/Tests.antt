-- ===== src/Broker/Session/Tests.antt =====
-- Sessions and commands in concrete rooms.
use room.Base.{
  String, Option, List, ◌<>◌, ◌≡◌, ◌↔◌, refl, true, false, none, some, [], ◌∷◌, if◌then◌else◌, ◌==◌,
}
use room.Base.Dict.{get, set_contains, set_insert}
use room.Protocol.Events.{mentions_only, unsubscribed, full}
use room.Protocol.Message.{Message, message, command, mentions}
use room.Protocol.Rooms.{dm_config}
use room.Protocol.Schema.{pos, number, CommandInfo, command_info, nil, params_of}
use room.Registry.State.{ok, err}
use room.Broker.Auth.{check_send_permission}
use room.Broker.Room.{Room, Env}
use room.Broker.Commands.Validate.{validate_params, check_params}
use room.Broker.Commands.Accepted.{AcceptsAll, validate_params_iff}
use room.Broker.Commands.Status.{handle_set_status}
use room.Broker.Session.{Wire, subscribe_mentioned}
use room.Broker.Session.Mentions.{IsChosen, subscribe_mentioned_lem}
use room.Plugins.Host.{Plugin, resolve}
use room.Plugins.Flag.{extract_from, extract_room_flag}
use room.Plugins.Dispatch.{Run, Target, returned, broadcast_to, refusal, dispatch_plugin}
use room.Plugins.Crossing.{outsider_crosses}
use room.Broker.Session.Outsiders.{IsOutside, outsider_sets_status}

abbrev hello : Message (Unit {0})
hello = message "u1" "dm-alice-bob" "alice" 50 none "hello @bob and @eve"

abbrev env : Env (Unit {0})
env = record {
  admin = record {
    utc = 9;
    uuid = "u0";
    clear_fault = false;
    fanout = record {
      codec = record { encode = λ m. some "{}"; decode = λ s. some hello };
      chat_fault = none;
    };
    auth = record {
      tokens = record { encode = λ d. some "{}"; decode = λ s. some [] };
      token_fault = none;
      of_registry = record {
        utc = 9;
        codec = record {
          encode = λ d. some "{}";
          decode = λ s. some (record { users = []; tokens = []; teams = [] });
        };
        save_fault = none;
      };
    };
  };
  stamps = λ n. record { uuid = "u2"; utc = 10 };
  tiers = record { encode = λ d. some "{}"; decode = λ s. some [] };
  filters = record { encode = λ d. some "{}"; decode = λ s. some [] };
  subscription_fault = none;
  event_filter_fault = none;
  alphanumeric = λ c. false;
  filter_error = λ s. "unknown event type";
}

abbrev wire : Wire
wire = record {
  with_host = λ host json. some json;
  meta_fault = none;
  envelope = λ s. none;
  error_json = λ code message. code;
  parse_error = λ s. "";
  route_error = "";
}

-- A room of alice and bob, where eve has a token of the daemon.
abbrev room_of_two : Room
room_of_two = record {
  state = record {
    room_id = "dm-alice-bob";
    channel = record {
      host_user = some "alice";
      clients = record { username = "alice"; received = [] } ∷ [];
      chat = none;
      seq_counter = 6;
    };
    auth = record {
      token_map = ("t1", "bob") ∷ ("t2", "eve") ∷ [];
      token_file = none;
      subscription_map = ("eve", unsubscribed) ∷ ("bob", full) ∷ [];
      registry = none;
    };
    status_map = [];
    status_timestamps = [];
    last_message_times = [];
    token_files = [];
    shutdown = false;
  };
  subscription_file = none;
  meta_file = none;
  event_filters = none;
  config = some (dm_config "now" "alice" "bob");
}

subscribe_mentioned_lem_example :
    let (newly, room') = subscribe_mentioned env hello room_of_two in
    let before = get "eve" room_of_two.state.auth.subscription_map in
    ((set_contains "eve" newly ≡ true)
      ↔ IsChosen "eve" (mentions env.alphanumeric hello) room_of_two.state.auth.token_map before)
    × (get "eve" room'.state.auth.subscription_map
        ≡ (if set_contains "eve" newly then some mentions_only else before))
subscribe_mentioned_lem_example = subscribe_mentioned_lem env hello room_of_two "eve"

eve-IsOutside : IsOutside "eve" room_of_two
unfolding dm_config set_insert set_contains ◌==◌
eve-IsOutside = record {
  config = dm_config "now" "alice" "bob";
  configured = refl;
  for_dm = refl;
  uninvited = refl;
}

outsider_sets_status_example :
    (check_send_permission "eve" room_of_two.config
      ≡ err "permission denied: only DM participants can send messages in this room")
    × ((handle_set_status env ("boo" ∷ []) "eve" room_of_two).1.state.channel.chat
        ≡ some ("" <> ("{}" <> "\n")))
outsider_sets_status_example =
    outsider_sets_status env "eve" room_of_two ("boo" ∷ []) "{}" eve-IsOutside refl refl

abbrev roll : CommandInfo
roll =
    command_info "roll" "Roll a die" "/roll <sides>"
      (record {
        name = "sides";
        param_type = number (some (pos 2)) none;
        required = true;
        description = "";
      }
        ∷ [])
      nil

validate_params_iff_example :
    (validate_params ("6" ∷ []) roll ≡ ok tt) ↔ AcceptsAll (params_of roll) ("6" ∷ [])
validate_params_iff_example = validate_params_iff ("6" ∷ []) roll

abbrev board : Plugin
board = record {
  name = "taskboard";
  commands = command_info "taskboard" "" "" [] nil ∷ [];
  api_version = 1;
  min_protocol = "1.0.0";
}

abbrev lobby : Room
lobby = record room_of_two { state = record room_of_two.state { room_id = "lobby" }; config = none }

-- The rooms that the daemon finds.
abbrev rooms : String → Option Target
rooms id =
    if id == "dm-alice-bob"
    then some (record {
      registry = record { plugins = board ∷ []; command_map = ("taskboard", 0) ∷ [] };
      room = room_of_two;
    })
    else none

abbrev run : Plugin → String → String → List String → Room → Run (Unit {0}) × Room
run p username cmd params room =
    (returned (broadcast_to ("task tb-001 posted by " <> username) none), room)

-- eve posts a task from the lobby to the room of alice and bob.
outsider_crosses_example :
    let (result, source, after) =
      dispatch_plugin env run
        (some rooms)
        board
        (command "u3" "lobby" "eve" 60 none "taskboard"
          ("post" ∷ "--room" ∷ "dm-alice-bob" ∷ "task" ∷ []))
        "eve"
        lobby in
    (source ≡ lobby)
    × ((t : Room) × (after ≡ some t) × (t.state.channel.chat ≡ some ("" <> ("{}" <> "\n"))))
    × (check_send_permission "eve" room_of_two.config
        ≡ err "permission denied: only DM participants can send messages in this room")
unfolding resolve get ◌==◌ refusal validate_params check_params extract_room_flag extract_from
outsider_crosses_example =
    outsider_crosses env run rooms
      (record {
        registry = record { plugins = board ∷ []; command_map = ("taskboard", 0) ∷ [] };
        room = room_of_two;
      })
      lobby "eve" "u3" "lobby" 60 none "taskboard" "dm-alice-bob" "task tb-001 posted by eve" "{}"
      ("post" ∷ "--room" ∷ "dm-alice-bob" ∷ "task" ∷ []) ("post" ∷ "task" ∷ []) board board
      eve-IsOutside refl refl refl refl refl refl refl
