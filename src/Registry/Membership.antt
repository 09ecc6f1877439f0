-- ===== src/Registry/Membership.antt =====
-- Team memberships after `join_team` and `leave_team` of crates/room-daemon/src/registry.rs.
use room.Base.{
  String, ◌≡◌, refl, true, false, ◌&&◌, none, some, List, [], ◌∷◌, arith, if◌then◌else◌, is_empty,
  unwrap_or, ◌==◌, ==_iff, Bool-cases, Option-cases, inl, inr,
}
use room.Base.Text.{is_empty_text}
use room.Base.Dict.{
  Dict, get, insert, remove, get-insert, get-remove, set_contains, set_insert, set_without,
  set_remove, set_contains-insert, set_contains-without,
}
use room.Registry.State.{Team, UserRegistry, Env, contents-saving, contents-saving_if}
use room.Registry.Teams.{new_team, join_team, leave_team, is_member}

-- The members of a team, none where there is no such team.
unfoldable members_of : Dict Team → String → List String
members_of teams team = elim (get team teams) [ none ↦ [] | some t ↦ t.members ]

is_member-members_of :
    (reg : UserRegistry) (team user : String)
    → is_member reg team user ≡ set_contains user (members_of reg.contents.teams team)
unfolding is_member members_of set_contains
is_member-members_of reg team user = ground arith

members_of-unwrap_or :
    (teams : Dict Team) (team : String) (t : Team)
    → t.members ≡ []
    → (unwrap_or (get team teams) t).members ≡ members_of teams team
unfolding members_of
members_of-unwrap_or teams team t e = ground arith

members_of-insert :
    (teams : Dict Team) (name team : String) (t : Team)
    → members_of (insert name t teams) team
      ≡ (if name == team then t.members else members_of teams team)
unfolding members_of
members_of-insert teams name team t = ground (arith, get-insert name team t teams)

members_of-remove :
    (teams : Dict Team) (name team : String)
    → members_of (remove name teams) team ≡ (if name == team then [] else members_of teams team)
unfolding members_of
members_of-remove teams name team = ground (arith, get-remove name team teams)

members_of-join_team :
    (env : Env) (reg : UserRegistry) (name username team : String)
    → is_empty_text name ≡ false
    → is_empty_text username ≡ false
    → members_of (join_team env reg name username).1.contents.teams team ≡ (
        if name == team
        then (set_insert username (members_of reg.contents.teams name)).1
        else members_of reg.contents.teams team)
unfolding join_team
members_of-join_team env reg name username team hn hu =
    rw
      (
        hn,
        hu,
        contents-saving,
        members_of-insert,
        members_of-unwrap_or reg.contents.teams name (new_team env name) refl,
      )
      refl

is_empty→[] : (xs : List String) → is_empty xs ≡ true → xs ≡ []
is_empty→[] [] h = refl
is_empty→[] (x ∷ xs) h = cc

members_of-shrink :
    (teams : Dict Team) (name team : String) (t : Team)
    → members_of (if is_empty t.members then remove name teams else insert name t teams) team
      ≡ (if name == team then t.members else members_of teams team)
members_of-shrink teams name team t = elim (Bool-cases (is_empty t.members)) [
  | inl e ↦ rw (e, is_empty→[] t.members e) (members_of-remove teams name team)
  | inr e ↦ rw e (members_of-insert teams name team t)
]

members_of-some :
    (teams : Dict Team) (team : String) (t : Team)
    → get team teams ≡ some t
    → members_of teams team ≡ t.members
unfolding members_of
members_of-some teams team t e = ground arith

without_missing :
    (teams : Dict Team) (name username team : String)
    → get name teams ≡ none
    → members_of teams team ≡ (
        if name == team
        then set_without username (members_of teams name)
        else members_of teams team)
unfolding members_of set_without
without_missing teams name username team e = ground (arith, ==_iff name team)

members_of-leave_team :
    (env : Env) (reg : UserRegistry) (name username team : String)
    → members_of (leave_team env reg name username).1.contents.teams team ≡ (
        if name == team
        then set_without username (members_of reg.contents.teams name)
        else members_of reg.contents.teams team)
unfolding leave_team set_remove
members_of-leave_team env reg name username team =
    elim (Option-cases (get name reg.contents.teams)) [
      | inl e ↦ rw (leave_team, e) (without_missing reg.contents.teams name username team e)
      | inr (t, e) ↦
          rw (leave_team, e, contents-saving_if, members_of-some reg.contents.teams name t e)
            (members_of-shrink reg.contents.teams name team
              (record t { members = set_without username t.members }))
    ]

-- `join_team` with two names that are not empty makes the user a member of the team, which it creates
-- where it is missing, and changes no other membership.
pub join_team-is_member :
    (env : Env) (reg : UserRegistry) (team_name username team user : String)
    → is_empty_text team_name ≡ false
    → is_empty_text username ≡ false
    → is_member (join_team env reg team_name username).1 team user
      ≡ (if team_name == team && username == user then true else is_member reg team user)
join_team-is_member env reg team_name username team user ht hu =
    rw
      (
        is_member-members_of,
        is_member-members_of reg team user,
        members_of-join_team env reg team_name username team ht hu,
      )
      (elim (Bool-cases (team_name == team)) [
        | inl e ↦ rw (e, (==_iff team_name team).0 e, set_contains-insert) refl
        | inr e ↦ rw e refl
      ])

-- `leave_team` takes the user out of the team, if that team and membership exist, and changes no other
-- membership: a team that is deleted with its last member had no other.
pub leave_team-is_member :
    (env : Env) (reg : UserRegistry) (team_name username team user : String)
    → is_member (leave_team env reg team_name username).1 team user
      ≡ (if team_name == team && username == user then false else is_member reg team user)
leave_team-is_member env reg team_name username team user =
    rw
      (
        is_member-members_of,
        is_member-members_of reg team user,
        members_of-leave_team env reg team_name username team,
      )
      (elim (Bool-cases (team_name == team)) [
        | inl e ↦ rw (e, (==_iff team_name team).0 e, set_contains-without) refl
        | inr e ↦ rw e refl
      ])
