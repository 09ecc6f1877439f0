-- ===== src/Registry/Operations.antt =====
-- The operations that change the registry, as data, and their runs.
use room.Base.{String, Option, List, [], ◌∷◌}
use room.Registry.State.{UserRegistry, Env}
use room.Registry.Users.{
  register_user, register_user_idempotent, remove_user, join_room, leave_room, set_status,
}
use room.Registry.Tokens.{issue_token, revoke_token, revoke_user_tokens, import_token}
use room.Registry.Teams.{join_team, leave_team}

pub data Operation : Type 0 where
  register rejoin remove : String → Operation
  issue : (uuid username : String) → Operation
  revoke revoke_all : String → Operation
  import_as : (username token : String) → Operation
  enter leave : (username room_id : String) → Operation
  status : String → Option String → Operation
  join_team_of leave_team_of : (team_name username : String) → Operation

abbrev pub apply : Env → UserRegistry → Operation → UserRegistry
apply env reg (Operation.register u) = (register_user env reg u).1
apply env reg (Operation.rejoin u) = (register_user_idempotent env reg u).1
apply env reg (Operation.remove u) = (remove_user env reg u).1
apply env reg (Operation.issue uuid u) = (issue_token env reg uuid u).1
apply env reg (Operation.revoke t) = (revoke_token env reg t).1
apply env reg (Operation.revoke_all u) = (revoke_user_tokens env reg u).1
apply env reg (Operation.import_as u t) = (import_token env reg u t).1
apply env reg (Operation.enter u r) = (join_room env reg u r).1
apply env reg (Operation.leave u r) = (leave_room env reg u r).1
apply env reg (Operation.status u s) = (set_status env reg u s).1
apply env reg (Operation.join_team_of t u) = (join_team env reg t u).1
apply env reg (Operation.leave_team_of t u) = (leave_team env reg t u).1

unfoldable pub run : UserRegistry → List (Env × Operation) → UserRegistry
run reg [] = reg
run reg ((env, op) ∷ rest) = run (apply env reg op) rest
