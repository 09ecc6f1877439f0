-- ===== src/Broker/Kick.antt =====
-- What `kick` and `reauth` of crates/room-daemon/src/broker/admin.rs do to a user's tokens.
use mathlib.Core.Option.{none-ne-some}
use room.Base.{
  String, ◌<>◌, ◌≡◌, ◌≢◌, refl, ap, ◌∙◌, Bool, true, false, not, none, some, arith, ◌==◌, ==_iff,
  ==_refl, Bool-cases, Option-cases, inl, inr, is_some,
}
use room.Base.Text.{strip_prefix, strip_prefix-append}
use room.Base.Dict.{
  Dict, get, contains_key, insert, retain, get-insert, get-retain, any_value-retain,
  any_value-insert,
}
use room.Registry.State.{
  Result, ok, err, RegistryData, UserRegistry, save, saving, saving_if, contents-saving_if,
}
use room.Registry.State as Registry
use room.Registry.Users.{register_user_idempotent}
use room.Registry.Tokens as RegistryTokens
use room.Registry.Tokens.{revoke_user_tokens, has_token_for_user}
use room.Broker.Auth.{
  AuthState, validate_token, issue_token, registry_token, issue_token_via_registry,
}
use room.Broker.Auth as Auth
use room.Broker.Admin.{
  Env, RoomState, announce, change_tokens, revoke_in_registry, remove_status, kick, reauth,
}

module _ {J : Type 0} (env : Env J) (issuer target : String) (state : RoomState) where
  abbrev sentinel : String
  sentinel = "KICKED:" <> target

  abbrev others : Dict String
  others = retain (λ u. not (u == target)) state.auth.token_map

  token_map-kick : (kick env issuer target state).auth.token_map ≡ insert sentinel target others
  unfolding kick announce remove_status revoke_in_registry change_tokens
  token_map-kick = elim (Option-cases state.auth.registry) [
    | inl e ↦ rw (kick, e) refl
    | inr (reg, e) ↦ rw (kick, e) refl
  ]

  token_map-reauth : (reauth env issuer target state).auth.token_map ≡ others
  unfolding reauth announce revoke_in_registry change_tokens
  token_map-reauth = elim (Option-cases state.auth.registry) [
    | inl e ↦ rw (reauth, e) refl
    | inr (reg, e) ↦ rw (reauth, e) refl
  ]

  others_lem : (token : String) → get token others ≢ some target
  others_lem token h = ground (
    arith,
    ==_refl target,
    get-retain (λ u. not (u == target)) token target state.auth.token_map h,
  )

  not_sentinel :
      (token : String)
      → is_some (strip_prefix "KICKED:" token) ≡ false
      → (sentinel == token) ≡ false
  not_sentinel token h = elim (Bool-cases (sentinel == token)) [
    | inr n ↦ n
    | inl y ↦ ground (
      arith,
      h,
      ap (λ s. is_some (strip_prefix "KICKED:" s)) ((==_iff sentinel token).0 y),
      strip_prefix-append "KICKED:" target,
    )
  ]

  -- After a kick no token stands for the user, and the user's name stays taken: a join by a token that
  -- the room itself issues is refused.
  pub kick_locks_out :
      (persist : Bool) (uuid token : String)
      → let after = (kick env issuer target state).auth in
        (validate_token token after ≢ some target)
        × (issue_token env.auth persist uuid target after
            ≡ (err ("username_taken:" <> target), after))
  unfolding validate_token issue_token
  kick_locks_out persist uuid token = (
    elim (Bool-cases (is_some (strip_prefix "KICKED:" token))) [
      | inl e ↦ rw (validate_token, e) (none-ne-some target)
      | inr e ↦
          rw (validate_token, e, token_map-kick)
            (rw (get-insert sentinel token target others, not_sentinel token e) (others_lem token))
    ],
    rw
        (
          issue_token,
          token_map-kick,
          any_value-insert (λ u. u == target) sentinel target others (==_refl target),
        )
        refl,
  )

  -- After `reauth` no token stands for the user, and a join of that user gets the new token.
  pub reauth_readmits :
      (persist : Bool) (uuid : String)
      → (issue_token env.auth persist uuid target (reauth env issuer target state).auth).0 ≡ ok uuid
  unfolding issue_token
  reauth_readmits persist uuid =
      rw (issue_token, token_map-reauth, any_value-retain (λ u. u == target) state.auth.token_map)
        refl

-- In daemon mode a kick leaves no token of the user in the registry.
registry-kick :
    {J : Type 0} (env : Env J) (issuer target : String) (state : RoomState) (reg : UserRegistry)
    → state.auth.registry ≡ some reg
    → (kick env issuer target state).auth.registry
      ≡ some (revoke_user_tokens env.auth.of_registry reg target).1
unfolding kick announce remove_status revoke_in_registry change_tokens
registry-kick env issuer target state reg e = rw (kick, e) refl

contains_key-revoke :
    (env : Registry.Env) (reg : UserRegistry) (username : String)
    → (revoke_user_tokens env reg username).1.contents.users ≡ reg.contents.users
unfolding revoke_user_tokens
contains_key-revoke env reg username = rw contents-saving_if refl

no_tokens-revoke :
    (env : Registry.Env) (reg : UserRegistry) (username : String)
    → has_token_for_user (revoke_user_tokens env reg username).1 username ≡ false
unfolding revoke_user_tokens has_token_for_user
no_tokens-revoke env reg username =
    rw contents-saving_if (any_value-retain (λ u. u == username) reg.contents.tokens)

saved_ok :
    {A : Type 0} (env : Registry.Env) (reg : UserRegistry) (a : A)
    → (json : String) × (env.codec.encode reg.contents ≡ some json)
    → env.save_fault ≡ none
    → (saving env reg a).0 ≡ ok a
unfolding saving save
saved_ok env reg a (json, e) works = ground (arith, e, works)

idempotent_known :
    (env : Registry.Env) (reg : UserRegistry) (username : String)
    → contains_key username reg.contents.users ≡ true
    → register_user_idempotent env reg username ≡ (ok tt, reg)
unfolding register_user_idempotent
idempotent_known env reg username known = rw (register_user_idempotent, known) refl

issue_known :
    (env : Registry.Env) (reg : UserRegistry) (uuid username : String)
    → contains_key username reg.contents.users ≡ true
    → ((d : RegistryData) → (json : String) × (env.codec.encode d ≡ some json))
    → env.save_fault ≡ none
    → (RegistryTokens.issue_token env reg uuid username).0 ≡ ok uuid
unfolding RegistryTokens.issue_token
issue_known env reg uuid username known encodes works =
    rw (RegistryTokens.issue_token, known) (saved_ok env _ uuid (encodes _) works)

via_registry-token :
    (env : Auth.Env) (uuid username : String) (reg : UserRegistry) (auth : AuthState)
    → (issue_token_via_registry env uuid username reg auth).0
      ≡ (registry_token env uuid username reg).0
unfolding issue_token_via_registry
via_registry-token env uuid username reg auth =
    elim (registry_token env uuid username reg).0
      as (λ r.
        (elim r as (λ _. Result String × AuthState) [
          | ok token ↦ (
            ok token,
            record auth {
              token_map = insert token username auth.token_map;
              registry = some (registry_token env uuid username reg).1;
            },
          )
          | err e ↦
              (err e, record auth { registry = some (registry_token env uuid username reg).1 })
        ]).0
        ≡ r) [ ok token ↦ refl | err e ↦ refl ]

registry_token_known :
    (env : Auth.Env) (reg : UserRegistry) (uuid username : String)
    → has_token_for_user reg username ≡ false
    → contains_key username reg.contents.users ≡ true
    → ((d : RegistryData) → (json : String) × (env.of_registry.codec.encode d ≡ some json))
    → env.of_registry.save_fault ≡ none
    → (registry_token env uuid username reg).0 ≡ ok uuid
unfolding registry_token
registry_token_known env reg uuid username free known encodes works =
    rw
      (
        registry_token,
        free,
        idempotent_known env.of_registry reg username known,
        idempotent_known env.of_registry reg username known,
      )
      (issue_known env.of_registry reg uuid username known encodes works)

-- In daemon mode a registered user who was kicked joins again at once and gets a new token, where the
-- registry can be saved.
pub kicked_rejoins :
    {J : Type 0} (env : Env J) (issuer target uuid : String) (state : RoomState)
    (reg : UserRegistry)
    → state.auth.registry ≡ some reg
    → contains_key target reg.contents.users ≡ true
    → ((d : RegistryData) → (json : String) × (env.auth.of_registry.codec.encode d ≡ some json))
    → env.auth.of_registry.save_fault ≡ none
    → let after = (kick env issuer target state).auth in
      (reg' : UserRegistry) × (after.registry ≡ some reg')
      × ((issue_token_via_registry env.auth uuid target reg' after).0 ≡ ok uuid)
kicked_rejoins env issuer target uuid state reg e known encodes works =
    let revoked = (revoke_user_tokens env.auth.of_registry reg target).1 in
    (
      revoked,
      registry-kick env issuer target state reg e,
      via_registry-token env.auth uuid target revoked (kick env issuer target state).auth
          ∙ registry_token_known env.auth revoked uuid target
              (no_tokens-revoke env.auth.of_registry reg target)
              (rw (contains_key-revoke env.auth.of_registry reg target) known) encodes works,
    )
