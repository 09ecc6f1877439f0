-- ===== src/Registry/Invariant.antt =====
-- The consistency of the registry's maps.
use room.Base.{
  String, ◌≡◌, refl, Bool, true, false, not, Option, some, arith, is_empty, ◌==◌, ==_iff, ◌⊎◌,
  Bool-cases, Option-cases, inl, inr,
}
use room.Base.Text.{is_empty_text}
use room.Base.Dict.{
  Dict, get, contains_key, insert, remove, get-insert, get-remove, Entries, get-Entries,
  insert-Entries, remove-Entries, retain-Entries, map-Entries,
}
use room.Registry.State.{
  User, Team, RegistryData, UserRegistry, Env, saving, saving_if, contents-saving,
  contents-saving_if,
}
use room.Registry.Users.{
  register_user, register_user_idempotent, remove_user, join_room, leave_room, set_status,
}
use room.Registry.Tokens.{issue_token, revoke_token, revoke_user_tokens, import_token}

abbrev pub HasName : String → Team → Type 0
HasName k t = (t.name ≡ k) × (is_empty t.members ≡ false)

-- Users and teams stand under their names, no team is empty, and a token belongs to a registered user.
pub record IsConsistent (d : RegistryData) : Type 0 where
  pub users_named : Entries (λ k u. u.username ≡ k) d.users
  pub tokens_owned : Entries (λ t u. contains_key u d.users ≡ true) d.tokens
  pub teams_live : Entries HasName d.teams

module _ (env : Env) (reg : UserRegistry) where
  pub saving-IsConsistent :
      {A : Type 0} (a : A) → IsConsistent reg.contents → IsConsistent (saving env reg a).1.contents
  saving-IsConsistent a h = rw contents-saving h

  pub saving_if-IsConsistent :
      {A : Type 0} (changed : Bool) (a : A)
      → IsConsistent reg.contents
      → IsConsistent (saving_if changed env reg a).1.contents
  saving_if-IsConsistent changed a h = rw contents-saving_if h

contains_key-insert :
    (k j : String) (v : User) (d : Dict User)
    → contains_key j d ≡ true
    → contains_key j (insert k v d) ≡ true
contains_key-insert k j v d h = ground (arith, get-insert k j v d)

-- A user put in under its name.
insert_user-IsConsistent :
    (d : RegistryData) (k : String) (u : User)
    → u.username ≡ k
    → IsConsistent d
    → IsConsistent (record d { users = insert k u d.users })
insert_user-IsConsistent d k u e h = record {
  users_named = insert-Entries _ k u d.users e h.users_named;
  tokens_owned = map-Entries _ _ d.tokens (λ t o. contains_key-insert k o u d.users) h.tokens_owned;
  teams_live = h.teams_live;
}

tokens-IsConsistent :
    (d : RegistryData) (tokens : Dict String)
    → IsConsistent d
    → Entries (λ t u. contains_key u d.users ≡ true) tokens
    → IsConsistent (record d { tokens = tokens })
tokens-IsConsistent d tokens h ts = record {
  users_named = h.users_named;
  tokens_owned = ts;
  teams_live = h.teams_live;
}

pub teams-IsConsistent :
    (d : RegistryData) (teams : Dict Team)
    → IsConsistent d
    → Entries HasName teams
    → IsConsistent (record d { teams = teams })
teams-IsConsistent d teams h ts = record {
  users_named = h.users_named;
  tokens_owned = h.tokens_owned;
  teams_live = ts;
}

-- The users stay but for one, and no token of that one is left.
contains_key-remove :
    (k j : String) (d : Dict User)
    → (not (j == k)) ≡ true
    → contains_key j d ≡ true
    → contains_key j (remove k d) ≡ true
contains_key-remove k j d n h = ground (arith, get-remove k j d, ==_iff k j, ==_iff j k)

rejoin-cases :
    (env : Env) (reg : UserRegistry) (username : String)
    → ((register_user_idempotent env reg username).1 ≡ reg)
      ⊎ ((register_user_idempotent env reg username).1 ≡ (register_user env reg username).1)
unfolding register_user_idempotent
rejoin-cases env reg username = ground arith

module _ (env : Env) (reg : UserRegistry) (h : IsConsistent reg.contents) where
  pub register_user-IsConsistent :
      (username : String) → IsConsistent (register_user env reg username).1.contents
  unfolding register_user
  register_user-IsConsistent username = elim (Bool-cases (is_empty_text username)) [
    | inl e ↦ rw e h
    | inr e ↦ elim (Bool-cases (contains_key username reg.contents.users)) [
      | inl f ↦ rw (e, f) h
      | inr f ↦
          rw (e, f)
            (saving-IsConsistent env _ _ (insert_user-IsConsistent reg.contents username _ refl h))
    ]
  ]

  pub rejoin-IsConsistent :
      (username : String) → IsConsistent (register_user_idempotent env reg username).1.contents
  rejoin-IsConsistent username = elim (rejoin-cases env reg username) [
    | inl e ↦ rw e h
    | inr e ↦ rw e (register_user-IsConsistent username)
  ]

  pub remove_user-IsConsistent :
      (username : String) → IsConsistent (remove_user env reg username).1.contents
  unfolding remove_user
  remove_user-IsConsistent username = elim (Bool-cases (contains_key username reg.contents.users)) [
    | inl e ↦ rw e (
        saving-IsConsistent env _ true (record {
          users_named = remove-Entries _ username reg.contents.users h.users_named;
          tokens_owned =
              retain-Entries _ _ _ reg.contents.tokens
                (λ t u. contains_key-remove username u reg.contents.users) h.tokens_owned;
          teams_live = h.teams_live;
        }))
    | inr e ↦ rw e h
  ]

  pub issue_token-IsConsistent :
      (uuid username : String) → IsConsistent (issue_token env reg uuid username).1.contents
  unfolding issue_token
  issue_token-IsConsistent uuid username =
      elim (Bool-cases (contains_key username reg.contents.users)) [
        | inl e ↦ rw e (
            saving-IsConsistent env _ uuid (
              tokens-IsConsistent reg.contents _ h
                (insert-Entries _ uuid username reg.contents.tokens e h.tokens_owned)))
        | inr e ↦ rw e h
      ]

  pub revoke_token-IsConsistent :
      (token : String) → IsConsistent (revoke_token env reg token).1.contents
  unfolding revoke_token
  revoke_token-IsConsistent token = saving_if-IsConsistent env _ _ _ (
      tokens-IsConsistent reg.contents _ h
        (remove-Entries _ token reg.contents.tokens h.tokens_owned))

  pub revoke_user_tokens-IsConsistent :
      (username : String) → IsConsistent (revoke_user_tokens env reg username).1.contents
  unfolding revoke_user_tokens
  revoke_user_tokens-IsConsistent username = saving_if-IsConsistent env _ _ _ (
      tokens-IsConsistent reg.contents _ h
        (retain-Entries _ _ _ reg.contents.tokens (λ t u _ o. o) h.tokens_owned))

  pub import_token-IsConsistent :
      (username token : String) → IsConsistent (import_token env reg username token).1.contents
  unfolding import_token
  import_token-IsConsistent username token =
      elim (Bool-cases (contains_key username reg.contents.users)) [
        | inr e ↦ rw e h
        | inl e ↦ elim (Bool-cases (contains_key token reg.contents.tokens)) [
          | inl f ↦ rw (e, f) h
          | inr f ↦
              rw (e, f)
                (saving-IsConsistent env _ tt (
                  tokens-IsConsistent reg.contents _ h
                    (insert-Entries _ token username reg.contents.tokens e h.tokens_owned)))
        ]
      ]

  name_of :
      (username : String) (user : User)
      → get username reg.contents.users ≡ some user
      → user.username ≡ username
  name_of username user e =
      get-Entries (λ k u. u.username ≡ k) username user reg.contents.users h.users_named e

  pub join_room-IsConsistent :
      (username room_id : String) → IsConsistent (join_room env reg username room_id).1.contents
  unfolding join_room
  join_room-IsConsistent username room_id = elim (Option-cases (get username reg.contents.users)) [
    | inl e ↦ rw (join_room, e) h
    | inr (user, e) ↦
        rw (join_room, e)
          (saving-IsConsistent env _ tt
            (insert_user-IsConsistent reg.contents username _ (name_of username user e) h))
  ]

  pub leave_room-IsConsistent :
      (username room_id : String) → IsConsistent (leave_room env reg username room_id).1.contents
  unfolding leave_room
  leave_room-IsConsistent username room_id = elim (Option-cases (get username reg.contents.users)) [
    | inl e ↦ rw (leave_room, e) h
    | inr (user, e) ↦
        rw (leave_room, e)
          (saving_if-IsConsistent env _ _ _
            (insert_user-IsConsistent reg.contents username _ (name_of username user e) h))
  ]

  pub set_status-IsConsistent :
      (username : String) (s : Option String)
      → IsConsistent (set_status env reg username s).1.contents
  unfolding set_status
  set_status-IsConsistent username s = elim (Option-cases (get username reg.contents.users)) [
    | inl e ↦ rw (set_status, e) h
    | inr (user, e) ↦
        rw (set_status, e)
          (saving-IsConsistent env _ tt
            (insert_user-IsConsistent reg.contents username _ (name_of username user e) h))
  ]
