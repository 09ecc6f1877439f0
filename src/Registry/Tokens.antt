-- ===== src/Registry/Tokens.antt =====
-- Tokens in crates/room-daemon/src/registry.rs. A token is a fresh UUID; `uuid` is its text.
use room.Base.{ℕ, ◌-◌, String, ◌<>◌, Bool, Option, if◌then◌else◌, ◌==◌, not, ltb, length}
use room.Base.Dict.{Dict, get, contains_key, insert, remove, retain, any_value}
use room.Registry.State.{UserRegistry, Env, Result, ok, err, saving, saving_if}

abbrev pub with_tokens : UserRegistry → Dict String → UserRegistry
with_tokens reg tokens = record reg { contents = record reg.contents { tokens = tokens } }

unfoldable pub issue_token : Env → UserRegistry → String → String → Result String × UserRegistry
issue_token env reg uuid username =
    if contains_key username reg.contents.users
    then saving env (with_tokens reg (insert uuid username reg.contents.tokens)) uuid
    else (err ("user not registered: " <> username), reg)

unfoldable pub validate_token : UserRegistry → String → Option String
validate_token reg token = get token reg.contents.tokens

unfoldable pub revoke_token : Env → UserRegistry → String → Result Bool × UserRegistry
revoke_token env reg token =
    let existed = contains_key token reg.contents.tokens in
    saving_if existed env (with_tokens reg (remove token reg.contents.tokens)) existed

-- The number of tokens revoked.
unfoldable pub revoke_user_tokens : Env → UserRegistry → String → Result ℕ × UserRegistry
revoke_user_tokens env reg username =
    let kept = retain (λ u. not (u == username)) reg.contents.tokens in
    let revoked = length reg.contents.tokens - length kept in
    saving_if (ltb 0 revoked) env (with_tokens reg kept) revoked

unfoldable pub has_token_for_user : UserRegistry → String → Bool
has_token_for_user reg username = any_value (λ u. u == username) reg.contents.tokens

unfoldable pub token_snapshot : UserRegistry → Dict String
token_snapshot reg = reg.contents.tokens

unfoldable pub import_token :
    Env → UserRegistry → String → String → Result (Unit {0}) × UserRegistry
import_token env reg username token =
    if not (contains_key username reg.contents.users)
    then (err ("user not registered: " <> username), reg)
    else if contains_key token reg.contents.tokens
    then (ok tt, reg)
    else saving env (with_tokens reg (insert token username reg.contents.tokens)) tt
