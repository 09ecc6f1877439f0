-- ===== src/Registry/Tests.antt =====
-- The laws of the registry on concrete registries.
use room.Base.{
  String, ◌≡◌, ◌≢◌, refl, Bool, true, false, ◌&&◌, Option, none, some, List, [], ◌∷◌, if◌then◌else◌,
  ◌==◌,
}
use room.Base.Text.Codec.{Codec}
use room.Base.Dict.{get}
use room.Registry.State.{User, Team, RegistryData, UserRegistry, Env, ok, new, save}
use room.Registry.Users.{remove_user, get_user}
use room.Registry.Tokens.{validate_token, has_token_for_user}
use room.Registry.Operations.{Operation, run}
use room.Registry.Invariant.{IsConsistent}
use room.Registry.Consistent.{run-IsConsistent}
use room.Registry.Laws.{remove_user_locks_out}

abbrev alice : User
alice = record { username = "alice"; created_at = 3; rooms = "lobby" ∷ []; status = none }

abbrev crew : Team
crew = record { name = "crew"; members = "alice" ∷ "bob" ∷ []; created_at = 4 }

abbrev data_of_three : RegistryData
data_of_three = record {
  users = ("alice", alice) ∷ [];
  tokens = ("t1", "alice") ∷ [];
  teams = ("crew", crew) ∷ [];
}

-- A serializer of one text, which stands for the data above.
abbrev one_data : Codec RegistryData
one_data = record { encode = λ d. some "{}"; decode = λ s. some data_of_three }

abbrev env : Env
env = record { utc = 9; codec = one_data; save_fault = none }

-- An environment whose saves fail.
abbrev full_disk : Env
full_disk = record { utc = 9; codec = one_data; save_fault = some ("disk full", none) }

abbrev registry : UserRegistry
registry = record { contents = data_of_three; file = none }

abbrev steps : List (Env × Operation)
steps =
    (env, Operation.register "bob")
    ∷ (full_disk, Operation.issue "t2" "bob")
    ∷ (env, Operation.join_team_of "crew" "bob")
    ∷ (env, Operation.remove "bob")
    ∷ []

run-IsConsistent_example : IsConsistent (run (new none) steps).contents
run-IsConsistent_example = run-IsConsistent none steps

registry-IsConsistent : IsConsistent registry.contents
unfolding get ◌==◌
registry-IsConsistent = record {
  users_named = (refl, tt);
  tokens_owned = (refl, tt);
  teams_live = ((refl, refl), tt);
}

remove_user_locks_out_example :
    let after = (remove_user full_disk registry "alice").1 in
    (get_user after "alice" ≡ none)
    × (has_token_for_user after "alice" ≡ false)
    × (validate_token after "t1" ≢ some "alice")
remove_user_locks_out_example =
    remove_user_locks_out full_disk registry "alice" "t1" registry-IsConsistent

alice_known : room.Base.Dict.contains_key "alice" registry.contents.users ≡ true
unfolding get ◌==◌
alice_known = refl

registry_saved : (save env registry).0 ≡ ok tt
unfolding save
registry_saved = refl
