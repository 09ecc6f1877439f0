-- ===== src/Registry/Teams.antt =====
-- Teams in crates/room-daemon/src/registry.rs, and what plugins see of them (`TeamChecker` of
-- crates/room-daemon/src/plugin/bridge.rs; `locked` is whether its `try_lock` fails).
use room.Base.{
  String, ◌<>◌, Bool, false, Option, none, some, List, [], if◌then◌else◌, is_some, is_empty,
  unwrap_or,
}
use room.Base.Text.{is_empty_text}
use room.Base.Dict.{Dict, get, insert, remove, set_contains, set_insert, set_remove}
use room.Registry.State.{Team, UserRegistry, Env, Result, err, saving, saving_if}
use room.Taskboard.Verdict.{TeamAccess}

abbrev pub with_teams : UserRegistry → Dict Team → UserRegistry
with_teams reg teams = record reg { contents = record reg.contents { teams = teams } }

abbrev pub new_team : Env → String → Team
new_team env name = record { name = name; members = []; created_at = env.utc }

-- Whether the user is a new member. The team is created with its first member.
unfoldable pub join_team : Env → UserRegistry → String → String → Result Bool × UserRegistry
join_team env reg team_name username =
    if is_empty_text team_name
    then (err "team name cannot be empty", reg)
    else if is_empty_text username
    then (err "username cannot be empty", reg)
    else (let team = unwrap_or (get team_name reg.contents.teams) (new_team env team_name) in
        let (added, members) = set_insert username team.members in
        saving env
          (with_teams reg (insert team_name (record team { members = members }) reg.contents.teams))
          added)

-- Whether the user was a member. A team goes with its last member.
unfoldable pub leave_team : Env → UserRegistry → String → String → Result Bool × UserRegistry
leave_team env reg team_name username = elim (get team_name reg.contents.teams) [
  | none ↦ (err ("team not found: " <> team_name), reg)
  | some team ↦
      let (removed, members) = set_remove username team.members in
      saving_if removed env
        (with_teams reg (
          if is_empty members
          then remove team_name reg.contents.teams
          else insert team_name (record team { members = members }) reg.contents.teams))
        removed
]

unfoldable pub get_team : UserRegistry → String → Option Team
get_team reg team_name = get team_name reg.contents.teams

-- The members of a mentioned team, in no particular order.
unfoldable pub expand_team_mention : UserRegistry → String → Option (List String)
expand_team_mention reg mention = elim (get mention reg.contents.teams) [
  | none ↦ none
  | some team ↦ some team.members
]

unfoldable pub is_member : UserRegistry → String → String → Bool
is_member reg team user = elim (get team reg.contents.teams) [
  | none ↦ false
  | some t ↦ set_contains user t.members
]

unfoldable pub team_checker : Bool → UserRegistry → TeamAccess
unfolding is_member
team_checker locked reg = record {
  team_exists = λ team. if locked then false else is_some (get team reg.contents.teams);
  is_member = λ team user. if locked then false else is_member reg team user;
}
