-- ===== src/Daemon/Rooms.antt =====
-- Creation and destruction of rooms in crates/room-daemon/src/broker/daemon/lifecycle.rs and mod.rs. A
-- room that is created holds the daemon's token map and registry as they are then.
use room.Base.{
  String, ◌<>◌, Bool, true, false, not, Option, none, some, List, [], ◌∷◌, if◌then◌else◌, unwrap_or,
  ◌==◌,
}
use room.Base.Dict.{Dict, get, contains_key, insert, remove, set_insert}
use room.Base.Text.{is_empty_text}
use room.Base.Text.Blank.{trim}
use room.Protocol.Events.{SubscriptionTier, full}
use room.Protocol.Rooms.{RoomConfig, RoomVisibility, public_room, private_room, dm_room, dm_config}
use room.Poll.Filters.{load_map}
use room.History.File.{new_channel}
use room.Registry.State.{UserRegistry, Result, ok, err}
use room.Registry.Tokens.{validate_token}
use room.Broker.Room.{Room, Env}
use room.Daemon.RoomId.{validate_room_id}

-- What the files of a room hold.
pub record RoomFiles : Type 0 where
  pub chat : Option String
  pub subscriptions : Option String
  pub event_filters : Option String

pub record DaemonState : Type 0 where
  pub rooms : Dict Room
  pub token_map : Dict String
  pub token_file : Option String
  pub user_registry : UserRegistry
  pub files : String → RoomFiles

abbrev is_dm : RoomVisibility → Bool
is_dm dm_room = true
is_dm _ = false

unfoldable pub subscribe_all : List String → Dict SubscriptionTier → Dict SubscriptionTier
subscribe_all [] subs = subs
subscribe_all (user ∷ users) subs = subscribe_all users (insert user full subs)

unfoldable pub build_initial_subscriptions : RoomConfig → Dict SubscriptionTier
unfolding subscribe_all
build_initial_subscriptions config =
    if is_dm config.visibility then subscribe_all config.invite_list [] else []

-- `initial.extend(persisted)`
unfoldable pub extend : {V : Type 0} → Dict V → Dict V → Dict V
extend d [] = d
extend d ((k, v) ∷ more) = extend (insert k v d) more

unfoldable pub merged_subs : Option RoomConfig → Dict SubscriptionTier → Dict SubscriptionTier
unfolding build_initial_subscriptions extend
merged_subs none persisted = persisted
merged_subs (some config) persisted = extend (build_initial_subscriptions config) persisted

-- `plugins_load` is whether `with_all_plugins` succeeds; `meta_json` is the room's meta file, and
-- `meta_fault` what its write meets.
pub record Creation (J : Type 0) : Type 0 where
  pub env : Env J
  pub plugins_load : Bool
  pub meta_json : String
  pub meta_fault : Option (Option String)

module _ {J : Type 0} (c : Creation J) where
  -- `RoomState::new`, with what is attached to the room.
  unfoldable pub new_room : String → Option RoomConfig → DaemonState → Room
  unfolding new_channel merged_subs load_map
  new_room room_id config daemon =
      let files = daemon.files room_id in
      record {
        state = record {
          room_id = room_id;
          channel = new_channel c.env.admin.fanout files.chat;
          auth = record {
            token_map = daemon.token_map;
            token_file = daemon.token_file;
            subscription_map = merged_subs config (load_map c.env.tiers files.subscriptions);
            registry = some daemon.user_registry;
          };
          status_map = [];
          status_timestamps = [];
          last_message_times = [];
          token_files = [];
          shutdown = false;
        };
        subscription_file = files.subscriptions;
        meta_file = elim c.meta_fault [ none ↦ some c.meta_json | some rest ↦ rest ];
        event_filters = some (load_map c.env.filters files.event_filters, files.event_filters);
        config = config;
      }

  unfoldable pub create_room_entry :
      String → Option RoomConfig → DaemonState → Result (Unit {0}) × DaemonState
  unfolding validate_room_id get new_room insert
  create_room_entry room_id config daemon = elim (validate_room_id room_id) [
    | err e ↦ (err e, daemon)
    | ok _ ↦
        if contains_key room_id daemon.rooms
        then (err ("room already exists: " <> room_id), daemon)
        else if not c.plugins_load
        then (err "plugin error", daemon)
        else (
          ok tt,
          record daemon { rooms = insert room_id (new_room room_id config daemon) daemon.rooms },
        )
  ]

-- The room that was destroyed, with its shutdown signalled, and the daemon without it.
unfoldable pub destroy_room : String → DaemonState → Result Room × DaemonState
unfolding get remove
destroy_room room_id daemon = elim (get room_id daemon.rooms) [
  | none ↦ (err ("room not found: " <> room_id), daemon)
  | some room ↦ (
    ok (record room { state = record room.state { shutdown = true } }),
    record daemon { rooms = remove room_id daemon.rooms },
  )
]

unfoldable pub has_room : String → DaemonState → Bool
unfolding get
has_room room_id daemon = contains_key room_id daemon.rooms

-- What a request is answered with.
pub data Response : Type 0 where
  failure : (code message : String) → Response
  created destroyed : (room : String) → Response
  token_response : (token username : String) → Response

-- `line` is the second line of the request.
unfoldable pub handle_destroy : String → String → DaemonState → Response × DaemonState
unfolding is_empty_text trim validate_token destroy_room
handle_destroy room_id line daemon =
    let token = trim line in
    if is_empty_text room_id
    then (failure "invalid_room_id" "room ID is empty", daemon)
    else if is_empty_text token
    then (failure "missing_token" "DESTROY requires a valid token on the second line", daemon)
    else elim (validate_token daemon.user_registry token) [
      | none ↦ (failure "invalid_token" "token is not valid", daemon)
      | some _ ↦
          let (result, daemon') = destroy_room room_id daemon in
          elim result [
            | ok _ ↦ (destroyed room_id, daemon')
            | err e ↦ (failure "room_not_found" room_id, daemon')
          ]
    ]

-- The JSON of a `CREATE` request: `visibility` is public and `invite` empty where they are not given.
pub record CreateRequest : Type 0 where
  pub visibility : String
  pub invite : List String
  pub token : Option String

-- `invite.into_iter().collect()`
unfoldable pub collect : List String → List String
unfolding set_insert
collect [] = []
collect (user ∷ users) = (set_insert user (collect users)).1

-- The configuration of the new room, or the message of the error.
unfoldable pub config_of : String → CreateRequest → Result RoomConfig
unfolding dm_config collect
config_of now request =
    let plain : RoomVisibility → RoomConfig = λ v. record {
      visibility = v;
      max_members = none;
      invite_list = collect request.invite;
      created_by = "system";
      created_at = now;
    } in
    if request.visibility == "public"
    then ok (plain public_room)
    else if request.visibility == "private"
    then ok (plain private_room)
    else if request.visibility == "dm"
    then elim request.invite [
      | a ∷ (b ∷ []) ↦ ok (dm_config now a b)
      | _ ↦ err "dm visibility requires exactly 2 users in invite list"
    ]
    else err ("unknown visibility: " <> request.visibility)

module _ {J : Type 0} (c : Creation J) where
  -- `read` is `serde_json` for the second line of the request, and `now` the time.
  unfoldable pub handle_create :
      (String → Option CreateRequest)
      → String
      → String
      → String
      → DaemonState
      → Response × DaemonState
  unfolding validate_room_id get is_empty_text trim validate_token config_of create_room_entry
  handle_create read now room_id line daemon =
      let text = trim line in
      let request : Option CreateRequest =
        if is_empty_text text
        then some (record { visibility = "public"; invite = []; token = none })
        else read text in
      elim (validate_room_id room_id) [
        | err e ↦ (failure "invalid_room_id" e, daemon)
        | ok _ ↦
            if contains_key room_id daemon.rooms
            then (failure "room_exists" ("room already exists: " <> room_id), daemon)
            else elim request [
              | none ↦ (failure "invalid_config" "invalid config JSON", daemon)
              | some r ↦
                  let token = unwrap_or r.token "" in
                  if is_empty_text token
                  then (
                    failure "missing_token" "CREATE requires a valid token in the config JSON",
                    daemon,
                  )
                  else elim (validate_token daemon.user_registry token) [
                    | none ↦ (failure "invalid_token" "token is not valid", daemon)
                    | some _ ↦ elim (config_of now r) [
                      | err e ↦ (failure "invalid_config" e, daemon)
                      | ok config ↦
                          let (result, daemon') =
                            create_room_entry c room_id (some config) daemon in
                          elim result [
                            | ok _ ↦ (created room_id, daemon')
                            | err e ↦ (failure "internal" e, daemon')
                          ]
                    ]
                  ]
            ]
      ]
