-- ===== src/Registry/Users.antt =====
-- Users, their rooms and their status in crates/room-daemon/src/registry.rs.
use room.Base.{
  String, ◌<>◌, Bool, true, false, Option, none, some, List, [], map, if◌then◌else◌, ◌==◌, not,
}
use room.Base.Text.{is_empty_text}
use room.Base.Dict.{Dict, get, contains_key, insert, remove, retain, set_insert, set_remove}
use room.Registry.State.{User, UserRegistry, Env, Result, ok, err, saving, saving_if}

abbrev pub with_users : UserRegistry → Dict User → UserRegistry
with_users reg users = record reg { contents = record reg.contents { users = users } }

unfoldable pub new_user : Env → String → User
new_user env username = record {
  username = username;
  created_at = env.utc;
  rooms = [];
  status = none;
}

unfoldable pub register_user : Env → UserRegistry → String → Result User × UserRegistry
unfolding new_user
register_user env reg username =
    if is_empty_text username
    then (err "username cannot be empty", reg)
    else if contains_key username reg.contents.users
    then (err ("username already registered: " <> username), reg)
    else saving env (with_users reg (insert username (new_user env username) reg.contents.users))
        (new_user env username)

unfoldable pub register_user_idempotent :
    Env → UserRegistry → String → Result (Unit {0}) × UserRegistry
register_user_idempotent env reg username =
    if contains_key username reg.contents.users
    then (ok tt, reg)
    else elim (register_user env reg username).0 [
      | ok _ ↦ (ok tt, (register_user env reg username).1)
      | err e ↦ (err e, (register_user env reg username).1)
    ]

-- The user, and all its tokens.
unfoldable pub remove_user : Env → UserRegistry → String → Result Bool × UserRegistry
remove_user env reg username =
    if contains_key username reg.contents.users
    then saving env
        (record reg {
          contents = record reg.contents {
            users = remove username reg.contents.users;
            tokens = retain (λ u. not (u == username)) reg.contents.tokens;
          };
        })
        true
    else (ok false, reg)

unfoldable pub get_user : UserRegistry → String → Option User
get_user reg username = get username reg.contents.users

unfoldable pub list_users : UserRegistry → List User
list_users reg = map (λ (_, user). user) reg.contents.users

not_registered : String → String
not_registered username = "user not registered: " <> username

unfoldable pub join_room : Env → UserRegistry → String → String → Result (Unit {0}) × UserRegistry
unfolding not_registered
join_room env reg username room_id = elim (get username reg.contents.users) [
  | none ↦ (err (not_registered username), reg)
  | some user ↦
      saving env
        (with_users reg (
          insert username (record user { rooms = (set_insert room_id user.rooms).1 })
            reg.contents.users))
        tt
]

-- Whether the user was in the room.
unfoldable pub leave_room : Env → UserRegistry → String → String → Result Bool × UserRegistry
unfolding not_registered
leave_room env reg username room_id = elim (get username reg.contents.users) [
  | none ↦ (err (not_registered username), reg)
  | some user ↦
      let (was_member, rooms) = set_remove room_id user.rooms in
      saving_if was_member env
        (with_users reg (insert username (record user { rooms = rooms }) reg.contents.users))
        was_member
]

unfoldable pub set_status :
    Env → UserRegistry → String → Option String → Result (Unit {0}) × UserRegistry
unfolding not_registered
set_status env reg username status = elim (get username reg.contents.users) [
  | none ↦ (err (not_registered username), reg)
  | some user ↦
      saving env
        (with_users reg (insert username (record user { status = status }) reg.contents.users)) tt
]
