-- ===== src/Query/Filter.antt =====
-- `QueryFilter` of crates/room-daemon/src/query.rs.
use room.Base.{
  ℕ, String, Bool, true, false, not, ◌||◌, ◌&&◌, Option, none, some, List, if◌then◌else◌, is_some,
  is_empty, any, ◌==◌, ltb, leb, nat_eq,
}
use room.Base.Text.{contains}
use room.Base.Dict.{set_contains}
use room.Protocol.Message.{Message, user, ts, seq, content, mentions, is_direct_message}

-- A compiled regular expression is its `is_match`.
pub record QueryFilter : Type 0 where
  pub rooms : List String
  pub users : List String
  pub content_search : Option String
  pub content_regex : Option (String → Bool)
  pub after_seq : Option (String × ℕ)
  pub before_seq : Option (String × ℕ)
  pub after_ts : Option ℕ
  pub before_ts : Option ℕ
  pub mention_user : Option String
  pub public_only : Bool
  pub target_id : Option (String × ℕ)
  pub limit : Option ℕ
  pub ascending : Bool

-- `match o { Some(a) if p(a) => {} _ => return false }`
abbrev pub some_passes : {A : Type 0} → Option A → (A → Bool) → Bool
some_passes none p = false
some_passes (some a) p = p a

-- `if let Some(a) = o { if !p(a) { return false } }`
abbrev pub each_passes : {A : Type 0} → Option A → (A → Bool) → Bool
each_passes none p = true
each_passes (some a) p = p a

-- The rest of `matches` where there is no `target_id`.
unfoldable pub in_range : {J : Type 0} → QueryFilter → Message J → String → Bool
in_range f msg room_id =
    if not (
      each_passes f.after_seq
        (λ (r, n). if room_id == r then some_passes (seq msg) (λ k. ltb n k) else true))
    then false
    else if not (
        each_passes f.before_seq
          (λ (r, n). if room_id == r then some_passes (seq msg) (λ k. ltb k n) else true))
    then false
    else if not (each_passes f.after_ts (λ t. not (leb (ts msg) t)))
    then false
    else if not (each_passes f.before_ts (λ t. not (leb t (ts msg))))
    then false
    else true

-- `alphanumeric` is `char::is_alphanumeric`, which the mentions of a message go by.
unfoldable pub matches : {J : Type 0} → (ℕ → Bool) → QueryFilter → Message J → String → Bool
unfolding in_range
matches alphanumeric f msg room_id =
    if not (is_empty f.rooms) && not (any (λ r. r == room_id) f.rooms)
    then false
    else if not (is_empty f.users) && not (any (λ u. u == user msg) f.users)
    then false
    else if f.public_only && is_direct_message msg
    then false
    else if not (
        each_passes f.content_search (λ needle. some_passes (content msg) (λ c. contains needle c)))
    then false
    else if not (each_passes f.content_regex (λ re. some_passes (content msg) re))
    then false
    else if not (each_passes f.mention_user (λ u. set_contains u (mentions alphanumeric msg)))
    then false
    else elim f.target_id [
      | some (r, n) ↦
          if not (room_id == r)
          then false
          else if not (some_passes (seq msg) (λ k. nat_eq k n))
          then false
          else true
      | none ↦ in_range f msg room_id
    ]

unfoldable pub has_narrowing_filter : QueryFilter → Bool → Bool
has_narrowing_filter f new_or_wait =
    new_or_wait
    || not (is_empty f.rooms)
    || not (is_empty f.users)
    || is_some f.content_search
    || is_some f.content_regex
    || is_some f.after_seq
    || is_some f.before_seq
    || is_some f.after_ts
    || is_some f.before_ts
    || is_some f.mention_user
    || is_some f.target_id
    || is_some f.limit
