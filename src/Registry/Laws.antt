-- ===== src/Registry/Laws.antt =====
-- What the lookups of crates/room-daemon/src/registry.rs answer after its changes. The changes of the
-- maps do not depend on whether the save succeeds.
use room.Base.{
  String, ◌≡◌, ◌≢◌, refl, ap, Bool, true, false, none, some, [], ◌∷◌, arith, if◌then◌else◌, ◌==◌,
  ==_iff, ==_refl, Bool-cases, Option-cases, inl, inr,
}
use room.Base.Dict.{
  Dict, get, contains_key, any_value-retain, any_value, get-insert, get-remove, Entries,
  map-Entries,
}
use room.Registry.State.{UserRegistry, Env, ok, load, save, contents-saving, contents-saving_if}
use room.Registry.Users.{remove_user, get_user}
use room.Registry.Tokens.{
  issue_token, revoke_token, revoke_user_tokens, validate_token, has_token_for_user,
}
use room.Registry.Invariant.{IsConsistent}

-- For a registered user, `issue_token` makes the new token stand for that user and leaves every other
-- token as it was, whether or not the save succeeds.
pub issue_token-validate_token :
    (env : Env) (reg : UserRegistry) (uuid username token : String)
    → contains_key username reg.contents.users ≡ true
    → validate_token (issue_token env reg uuid username).1 token
      ≡ (if uuid == token then some username else validate_token reg token)
unfolding issue_token validate_token
issue_token-validate_token env reg uuid username token h =
    rw (h, contents-saving) (get-insert uuid token username reg.contents.tokens)

-- `revoke_token` makes its token stand for nobody and leaves every other token as it was, whether or
-- not the token existed and the save succeeds.
pub revoke_token-validate_token :
    (env : Env) (reg : UserRegistry) (revoked token : String)
    → validate_token (revoke_token env reg revoked).1 token
      ≡ (if revoked == token then none else validate_token reg token)
unfolding revoke_token validate_token
revoke_token-validate_token env reg revoked token =
    rw contents-saving_if (get-remove revoked token reg.contents.tokens)

no_value_get :
    (p : String → Bool) (k v : String) (d : Dict String)
    → any_value p d ≡ false
    → get k d ≡ some v
    → p v ≡ false
unfolding any_value get
no_value_get p k v [] h e = cc
no_value_get p k v ((j, w) ∷ d) h e = ground (arith, no_value_get p k v d)

no_entry :
    (username : String) (d : Dict String)
    → Entries (λ t u. (u == username) ≡ false) d
    → any_value (λ u. u == username) d ≡ false
unfolding any_value
no_entry username [] h = refl
no_entry username ((k, u) ∷ d) (e, h) = ground (arith, no_entry username d h)

keyless_differs {ℓ} :
    {V : Type ℓ} (k j : String) (d : Dict V)
    → contains_key k d ≡ false
    → contains_key j d ≡ true
    → (j == k) ≡ false
keyless_differs k j d n h = elim (Bool-cases (j == k)) [
  | inl e ↦ ground (arith, n, h, ap (λ x. contains_key x d) ((==_iff j k).0 e))
  | inr e ↦ e
]

unregistered_owns_none :
    (reg : UserRegistry) (username : String)
    → IsConsistent reg.contents
    → contains_key username reg.contents.users ≡ false
    → has_token_for_user reg username ≡ false
unfolding has_token_for_user
unregistered_owns_none reg username h n = no_entry username reg.contents.tokens (
    map-Entries _ _ reg.contents.tokens (λ t u. keyless_differs username u reg.contents.users n)
      h.tokens_owned)

remove_user-owns_none :
    (env : Env) (reg : UserRegistry) (username : String)
    → IsConsistent reg.contents
    → has_token_for_user (remove_user env reg username).1 username ≡ false
unfolding remove_user has_token_for_user
remove_user-owns_none env reg username h =
    elim (Bool-cases (contains_key username reg.contents.users)) [
      | inl e ↦
          rw (e, has_token_for_user, contents-saving)
            (any_value-retain (λ u. u == username) reg.contents.tokens)
      | inr e ↦ rw e (unregistered_owns_none reg username h e)
    ]

no_token-validate_token :
    (reg : UserRegistry) (username token : String)
    → has_token_for_user reg username ≡ false
    → validate_token reg token ≢ some username
unfolding has_token_for_user validate_token
no_token-validate_token reg username token n e = ground (
  arith,
  ==_refl username,
  no_value_get (λ u. u == username) token username reg.contents.tokens n e,
)

-- After `remove_user` on a consistent registry, whether or not the user was registered and the save
-- succeeds, the user is not registered, owns no token, and no token stands for that user.
pub remove_user_locks_out :
    (env : Env) (reg : UserRegistry) (username token : String)
    → IsConsistent reg.contents
    → let after = (remove_user env reg username).1 in
      (get_user after username ≡ none)
      × (has_token_for_user after username ≡ false)
      × (validate_token after token ≢ some username)
remove_user_locks_out env reg username token h =
    let n = remove_user-owns_none env reg username h in
    (
      unfold remove_user get_user in
          elim (Bool-cases (contains_key username reg.contents.users)) [
            | inl e ↦
                rw (e, contents-saving)
                  (ground
                    (arith, get-remove username username reg.contents.users, ==_refl username))
            | inr e ↦ rw e (ground (arith, e))
          ],
      n,
      no_token-validate_token (remove_user env reg username).1 username token n,
    )

revoke_user_tokens-owns_none :
    (env : Env) (reg : UserRegistry) (username : String)
    → has_token_for_user (revoke_user_tokens env reg username).1 username ≡ false
unfolding revoke_user_tokens has_token_for_user
revoke_user_tokens-owns_none env reg username =
    rw contents-saving_if (any_value-retain (λ u. u == username) reg.contents.tokens)

-- `revoke_user_tokens` leaves no token of the user and no token that stands for that user.
pub revoke_user_tokens_locks_out :
    (env : Env) (reg : UserRegistry) (username token : String)
    → let after = (revoke_user_tokens env reg username).1 in
      (has_token_for_user after username ≡ false) × (validate_token after token ≢ some username)
revoke_user_tokens_locks_out env reg username token =
    let n = revoke_user_tokens-owns_none env reg username in
    (n, no_token-validate_token (revoke_user_tokens env reg username).1 username token n)

-- A registry that was saved without an error is loaded from its file with the same contents, if
-- `serde_json` reads what it wrote back.
pub save-load :
    (env : Env) (reg : UserRegistry)
    → ((json : String)
        → env.codec.encode reg.contents ≡ some json
        → env.codec.decode json ≡ some reg.contents)
    → (save env reg).0 ≡ ok tt
    → load env (save env reg).1.file ≡ ok (save env reg).1
unfolding save load
save-load env reg back saved = elim (Option-cases (env.codec.encode reg.contents)) [
  | inl e ↦ ground (arith, e)
  | inr (json, e) ↦ ground (arith, e, back json e)
]
