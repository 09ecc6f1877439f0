-- ===== src/Registry/Consistent.antt =====
-- Every operation of crates/room-daemon/src/registry.rs keeps the registry's maps consistent.
use room.Base.{
  String, ◌≡◌, refl, false, List, [], ◌∷◌, arith, is_empty, unwrap_or, Bool-cases, Option-cases,
  Option, inl, inr,
}
use room.Base.Text.{is_empty_text}
use room.Base.Dict.{
  get, get-Entries, insert-Entries, remove-Entries, set_insert, set_remove, set_contains,
  set_without,
}
use room.Registry.State.{Team, UserRegistry, Env, new}
use room.Registry.Teams.{join_team, leave_team}
use room.Registry.Invariant.{
  HasName, IsConsistent, saving-IsConsistent, saving_if-IsConsistent, teams-IsConsistent,
  register_user-IsConsistent, rejoin-IsConsistent, remove_user-IsConsistent,
  issue_token-IsConsistent, revoke_token-IsConsistent, revoke_user_tokens-IsConsistent,
  import_token-IsConsistent, join_room-IsConsistent, leave_room-IsConsistent,
  set_status-IsConsistent,
}
use room.Registry.Operations.{Operation, apply, run}

set_insert-some : (x : String) (xs : List String) → is_empty (set_insert x xs).1 ≡ false
unfolding set_insert set_contains
set_insert-some x [] = refl
set_insert-some x (y ∷ ys) = ground arith

module _ (env : Env) (reg : UserRegistry) (h : IsConsistent reg.contents) where
  -- The team found, or a new one.
  team_name_of :
      (t : String) (team : Team)
      → team.name ≡ t
      → (unwrap_or (get t reg.contents.teams) team).name ≡ t
  team_name_of t team e = elim (Option-cases (get t reg.contents.teams)) [
    | inl f ↦ rw f e
    | inr (found, f) ↦ rw f (get-Entries HasName t found reg.contents.teams h.teams_live f).0
  ]

  join_team-IsConsistent : (t u : String) → IsConsistent (join_team env reg t u).1.contents
  unfolding join_team
  join_team-IsConsistent t u = elim (Bool-cases (is_empty_text t)) [
    | inl e ↦ rw e h
    | inr e ↦ elim (Bool-cases (is_empty_text u)) [
      | inl f ↦ rw (e, f) h
      | inr f ↦
          rw (e, f)
            (saving-IsConsistent env _ _ (
              teams-IsConsistent reg.contents _ h (
                insert-Entries HasName t _ reg.contents.teams
                  (team_name_of t _ refl, set_insert-some u _) h.teams_live)))
    ]
  ]

  leave_team-IsConsistent : (t u : String) → IsConsistent (leave_team env reg t u).1.contents
  unfolding leave_team set_remove
  leave_team-IsConsistent t u = elim (Option-cases (get t reg.contents.teams)) [
    | inl e ↦ rw (leave_team, e) h
    | inr (team, e) ↦ elim (Bool-cases (is_empty (set_without u team.members))) [
      | inl f ↦
          rw (leave_team, e, set_remove, f)
            (saving_if-IsConsistent env _ _ _ (
              teams-IsConsistent reg.contents _ h
                (remove-Entries HasName t reg.contents.teams h.teams_live)))
      | inr f ↦
          rw (leave_team, e, set_remove, f)
            (saving_if-IsConsistent env _ _ _ (
              teams-IsConsistent reg.contents _ h (
                insert-Entries HasName t _ reg.contents.teams
                  ((get-Entries HasName t team reg.contents.teams h.teams_live e).0, f)
                  h.teams_live)))
    ]
  ]

  apply-IsConsistent : (op : Operation) → IsConsistent (apply env reg op).contents
  apply-IsConsistent (Operation.register u) = register_user-IsConsistent env reg h u
  apply-IsConsistent (Operation.rejoin u) = rejoin-IsConsistent env reg h u
  apply-IsConsistent (Operation.remove u) = remove_user-IsConsistent env reg h u
  apply-IsConsistent (Operation.issue uuid u) = issue_token-IsConsistent env reg h uuid u
  apply-IsConsistent (Operation.revoke t) = revoke_token-IsConsistent env reg h t
  apply-IsConsistent (Operation.revoke_all u) = revoke_user_tokens-IsConsistent env reg h u
  apply-IsConsistent (Operation.import_as u t) = import_token-IsConsistent env reg h u t
  apply-IsConsistent (Operation.enter u r) = join_room-IsConsistent env reg h u r
  apply-IsConsistent (Operation.leave u r) = leave_room-IsConsistent env reg h u r
  apply-IsConsistent (Operation.status u s) = set_status-IsConsistent env reg h u s
  apply-IsConsistent (Operation.join_team_of t u) = join_team-IsConsistent t u
  apply-IsConsistent (Operation.leave_team_of t u) = leave_team-IsConsistent t u

keeps-IsConsistent :
    (reg : UserRegistry) (steps : List (Env × Operation))
    → IsConsistent reg.contents
    → IsConsistent (run reg steps).contents
unfolding run
keeps-IsConsistent reg [] h = h
keeps-IsConsistent reg ((env, op) ∷ rest) h =
    keeps-IsConsistent (apply env reg op) rest (apply-IsConsistent env reg h op)

-- After any sequence of operations on a new registry, whether their saves succeed or fail, users and
-- teams stand under their own names, no team is empty, and every token belongs to a registered user.
pub run-IsConsistent :
    (file : Option String) (steps : List (Env × Operation))
    → IsConsistent (run (new file) steps).contents
unfolding new
run-IsConsistent file steps =
    keeps-IsConsistent (new file) steps
      (record { users_named = tt; tokens_owned = tt; teams_live = tt })
