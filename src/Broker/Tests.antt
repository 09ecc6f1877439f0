-- ===== src/Broker/Tests.antt =====
-- The broker on concrete rooms.
use room.Base.{
  ℕ, ◌<◌, ◌+◌, ◌^◌, String, ◌<>◌, ◌≡◌, ◌≢◌, ◌⊎◌, ◌↔◌, refl, Bool, true, false, Option, none, some,
  List, [], ◌∷◌, arith, ==_iff, ◌==◌,
}
use room.Base.Dict.{Dict, get}
use room.Protocol.Message.{Message, message, direct_message}
use room.Registry.State.{User, RegistryData, UserRegistry, ok, err}
use room.Broker.Auth.{
  AuthState, check_join_permission, check_send_permission, issue_token, validate_token,
  issue_token_via_registry,
}
use room.Broker.Auth as Auth
use room.Broker.Fanout.{Client, Channel, dm_and_persist}
use room.Broker.Fanout as Fanout
use room.Broker.Sequence.{Sending, send_all, Numbered, send_all-Numbered}
use room.Broker.Private.{inboxes, dm_stays_private}
use room.Broker.Admin.{RoomState, Env, kick}
use room.Broker.Kick.{kick_locks_out, kicked_rejoins}

-- A serializer of one text: only that it succeeds is used here.
abbrev hello : Message (Unit {0})
hello = message "u1" "lobby" "alice" 50 none "hello"

abbrev fanout : Fanout.Env (Unit {0})
fanout = record {
  codec = record { encode = λ m. some "{}"; decode = λ s. some hello };
  chat_fault = none;
}

abbrev full_disk : Fanout.Env (Unit {0})
full_disk = record fanout { chat_fault = some none }

abbrev channel : Channel
channel = record {
  host_user = some "alice";
  clients =
      record { username = "alice"; received = [] }
      ∷ record { username = "eve"; received = "old" ∷ [] }
      ∷ [];
  chat = none;
  seq_counter = 6;
}

abbrev sendings : List (Sending (Unit {0}))
sendings =
    record { env = fanout; msg = hello; direct = false }
    ∷ record { env = full_disk; msg = hello; direct = false }
    ∷ record { env = fanout; msg = hello; direct = true }
    ∷ []

send_all-Numbered_example :
    let (sent, ch') = send_all sendings channel in
    Numbered 6 ch'.seq_counter sent × (ch'.seq_counter ≡ 6 + 3)
send_all-Numbered_example = send_all-Numbered sendings channel (ground arith)

differs : (s t : String) → (s == t) ≡ false → s ≢ t
differs s t n e = ground (arith, n, e, ==_iff s t)

alice-not-eve : channel.host_user ≢ some "eve"
unfolding ◌==◌
alice-not-eve e = ground (arith, e, (==_iff "alice" "eve").1)

dm_stays_private_example :
    inboxes "eve"
      (dm_and_persist fanout
        (direct_message "u2" "lobby" "alice" 51 none "bob" "psst")
        channel).1.clients
    ≡ inboxes "eve" channel.clients
unfolding ◌==◌
dm_stays_private_example =
    dm_stays_private fanout channel "u2" "lobby" "alice" "bob" "psst" "eve" 51 none
      (differs "eve" "alice" refl) (differs "eve" "bob" refl) alice-not-eve

abbrev eve : String
eve = "eve"

abbrev bob : User
bob = record { username = "bob"; created_at = 3; rooms = []; status = none }

abbrev contents : RegistryData
contents = record { users = ("bob", bob) ∷ []; tokens = ("t1", "bob") ∷ []; teams = [] }

abbrev registry : UserRegistry
registry = record { contents = contents; file = none }

abbrev auth_env : Auth.Env
auth_env = record {
  tokens = record { encode = λ d. some "{}"; decode = λ s. some [] };
  token_fault = none;
  of_registry = record {
    utc = 9;
    codec = record { encode = λ d. some "{}"; decode = λ s. some contents };
    save_fault = none;
  };
}

abbrev env : Env (Unit {0})
env = record { utc = 9; uuid = "u3"; clear_fault = false; fanout = fanout; auth = auth_env }

abbrev state : RoomState
state = record {
  room_id = "lobby";
  channel = channel;
  auth = record {
    token_map = ("t1", "bob") ∷ [];
    token_file = none;
    subscription_map = [];
    registry = some registry;
  };
  status_map = [];
  status_timestamps = [];
  last_message_times = [];
  token_files = [];
  shutdown = false;
}

kick_locks_out_example :
    let after = (kick env "alice" "bob" state).auth in
    (validate_token "t1" after ≢ some "bob")
    × (issue_token env.auth true "t2" "bob" after ≡ (err ("username_taken:" <> "bob"), after))
kick_locks_out_example = kick_locks_out env "alice" "bob" state true "t2" "t1"

bob_known : room.Base.Dict.contains_key "bob" registry.contents.users ≡ true
unfolding get ◌==◌
bob_known = refl

kicked_rejoins_example :
    let after = (kick env "alice" "bob" state).auth in
    (reg' : UserRegistry) × (after.registry ≡ some reg')
    × ((issue_token_via_registry env.auth "t2" "bob" reg' after).0 ≡ ok "t2")
kicked_rejoins_example =
    kicked_rejoins env "alice" "bob" "t2" state registry refl bob_known (λ d. ("{}", refl)) refl
