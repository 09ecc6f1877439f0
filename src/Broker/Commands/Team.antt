-- ===== src/Broker/Commands/Team.antt =====
-- crates/room-daemon/src/broker/commands/team.rs.
use room.Base.{
  String, ◌<>◌, Bool, none, some, List, [], ◌∷◌, if◌then◌else◌, is_empty, ◌==◌, get_elem?,
}
use room.Base.Dict.{Dict}
use room.Base.Text.{join}
use room.Registry.State.{Result, ok, err, UserRegistry, Team}
use room.Registry.State as Registry
use room.Registry.Teams.{join_team, leave_team, get_team}
use room.Broker.Room.{Room, Env, with_state, entries, keyed_by}
use room.Broker.Commands.Status.{Outcome, first_or, reply_with, announce_persisted}

pub record MutateLabels : Type 0 where
  pub usage : String
  pub success_verb : String
  pub noop_msg : String

abbrev with_registry : UserRegistry → Room → Room
with_registry reg room =
    with_state (record room.state { auth = record room.state.auth { registry = some reg } }) room

-- `list_teams`, sorted by name
unfoldable pub team_lines : Dict Team → List String
unfolding join
team_lines [] = []
team_lines ((name, team) ∷ teams) =
    (team.name <> (": " <> join ", " team.members)) ∷ team_lines teams

module _ {J : Type 0} (env : Env J) where
  unfoldable pub team_mutate :
      List String
      → String
      → MutateLabels
      → (Registry.Env → UserRegistry → String → String → Result Bool × UserRegistry)
      → UserRegistry
      → Room
      → Outcome env
  unfolding reply_with announce_persisted
  team_mutate params username labels op reg room = elim (get_elem? params 1) [
    | none ↦ reply_with env labels.usage room
    | some team_name ↦
        let target_user : String = elim (get_elem? params 2) [ none ↦ username | some u ↦ u ] in
        let (result, reg') = op env.admin.auth.of_registry reg team_name target_user in
        let room' = with_registry reg' room in
        elim result [
          | ok changed ↦
              if changed
              then announce_persisted env
                  (target_user <> (" " <> (labels.success_verb <> (" team " <> team_name)))) room'
              else reply_with env (target_user <> (" " <> (labels.noop_msg <> (" " <> team_name))))
                  room'
          | err e ↦ reply_with env ("error: " <> e) room'
        ]
  ]

  abbrev join_labels : MutateLabels
  join_labels = record {
    usage = "usage: /team join <team> [user]";
    success_verb = "joined";
    noop_msg = "is already in team";
  }

  abbrev leave_labels : MutateLabels
  leave_labels = record {
    usage = "usage: /team leave <team> [user]";
    success_verb = "left";
    noop_msg = "is not in team";
  }

  unfoldable pub list_text : UserRegistry → String
  unfolding entries keyed_by team_lines join
  list_text reg =
      if is_empty reg.contents.teams
      then "no teams"
      else join "\n" (team_lines (entries (keyed_by (λ t. t.name) reg.contents.teams)))

  unfoldable pub show_text : String → UserRegistry → String
  unfolding get_team join
  show_text team_name reg = elim (get_team reg team_name) [
    | some team ↦ "team " <> (team.name <> (": " <> join ", " team.members))
    | none ↦ "team not found: " <> team_name
  ]

  unfoldable pub handle_team : List String → String → Room → Outcome env
  unfolding reply_with team_mutate join_team leave_team list_text show_text
  handle_team params username room = elim room.state.auth.registry [
    | none ↦ reply_with env "teams require daemon mode" room
    | some reg ↦
        let action = first_or "" params in
        if action == "join"
        then team_mutate params username join_labels join_team reg room
        else if action == "leave"
        then team_mutate params username leave_labels leave_team reg room
        else if action == "list"
        then reply_with env (list_text reg) room
        else if action == "show"
        then elim (get_elem? params 1) [
          | none ↦ reply_with env "usage: /team show <team>" room
          | some team_name ↦ reply_with env (show_text team_name reg) room
        ]
        else if action == ""
        then reply_with env "usage: /team <join|leave|list|show> [args...]" room
        else reply_with env ("unknown action: " <> (action <> ". use: join, leave, list, show"))
            room
  ]
