-- ===== src/Protocol/Rooms.antt =====
-- Rooms in crates/room-protocol/src/lib.rs: their visibility, configuration and ids.
use Prim.Native.Char.{code}
use text.Mathlib.TextEquality.{Char-path}
use room.Base.{
  ℕ, ◌+◌, String, ◌<>◌, ◌≡◌, ◌≢◌, refl, Bool, true, false, ◌&&◌, Option, none, some, List, [],
  arith, if◌then◌else◌, is_some, nat_eq, ltb, leb, ◌==◌, ==_iff, Bool-cases, inl, inr,
}
use room.Base.Text.{strip_prefix}
use room.Base.Dict.{set_insert}

pub data RoomVisibility : Type 0 where
  public_room private_room unlisted dm_room : RoomVisibility

-- The sets of names are lists.
pub record RoomConfig : Type 0 where
  pub visibility : RoomVisibility
  pub max_members : Option ℕ
  pub invite_list : List String
  pub created_by : String
  pub created_at : String

-- `RoomConfig::public`; `now` is `Utc::now().to_rfc3339()`
unfoldable pub public_config : String → String → RoomConfig
public_config now created_by = record {
  visibility = public_room;
  max_members = none;
  invite_list = [];
  created_by = created_by;
  created_at = now;
}

-- `RoomConfig::dm`
unfoldable pub dm_config : String → String → String → RoomConfig
dm_config now user_a user_b = record {
  visibility = dm_room;
  max_members = some 2;
  invite_list = (set_insert user_b (set_insert user_a []).1).1;
  created_by = user_a;
  created_at = now;
}

pub data DmRoomError : Type 0 where
  same_user : String → DmRoomError

pub data DmRoom : Type 0 where
  room_id : String → DmRoom
  refused : DmRoomError → DmRoom

-- Rust's `<` on texts: by bytes of UTF-8, which is by the numbers of the characters.
unfoldable pub text_lt : String → String → Bool
text_lt String.[] String.[] = false
text_lt String.[] (String.◌∷◌ d t) = true
text_lt (String.◌∷◌ c s) String.[] = false
text_lt (String.◌∷◌ c s) (String.◌∷◌ d t) =
    let rest = text_lt s t in
    if ltb (code c) (code d) then true else if nat_eq (code c) (code d) then rest else false

unfoldable pub dm_room_id : String → String → DmRoom
unfolding text_lt
dm_room_id user_a user_b =
    if user_a == user_b
    then refused (same_user user_a)
    else (let first = if text_lt user_a user_b then user_a else user_b in
        let second = if text_lt user_a user_b then user_b else user_a in
        room_id ("dm-" <> (first <> ("-" <> second))))

-- `s.matches('-').count()`
unfoldable count_dashes : String → ℕ
count_dashes String.[] = 0
count_dashes (String.◌∷◌ c s) = (if nat_eq (code c) b'-' then 1 else 0) + count_dashes s

unfoldable pub is_dm_room : String → Bool
unfolding count_dashes
is_dm_room id = is_some (strip_prefix "dm-" id) && leb 2 (count_dashes id)

text_lt-asym : (s t : String) → text_lt s t ≡ true → text_lt t s ≡ false
unfolding text_lt
text_lt-asym String.[] String.[] h = refl
text_lt-asym String.[] (String.◌∷◌ d t) h = refl
text_lt-asym (String.◌∷◌ c s) String.[] h = cc
text_lt-asym (String.◌∷◌ c s) (String.◌∷◌ d t) h = ground (arith, text_lt-asym s t)

text_lt-connex : (s t : String) → text_lt s t ≡ false → text_lt t s ≡ false → s ≡ t
unfolding text_lt
text_lt-connex String.[] String.[] h k = refl
text_lt-connex String.[] (String.◌∷◌ d t) h k = cc
text_lt-connex (String.◌∷◌ c s) String.[] h k = cc
text_lt-connex (String.◌∷◌ c s) (String.◌∷◌ d t) h k =
    let same = Char-path c d (ground arith) in
    let rest = text_lt-connex s t (ground arith) (ground arith) in λ i. String.◌∷◌ (same i) (rest i)

text_lt-flip :
    (s t : String) → (s == t) ≡ false → text_lt t s ≡ (if text_lt s t then false else true)
text_lt-flip s t n =
    ground (arith, n, text_lt-asym s t, text_lt-asym t s, text_lt-connex s t, ==_iff s t)

-- The room of a direct message does not depend on which of its two different users asks for it.
pub dm_room_id_comm :
    (user_a user_b : String) → user_a ≢ user_b → dm_room_id user_a user_b ≡ dm_room_id user_b user_a
unfolding dm_room_id
dm_room_id_comm user_a user_b n = elim (Bool-cases (user_a == user_b)) [
  | inl e ↦ absurd (n ((==_iff user_a user_b).0 e))
  | inr e ↦
      ground (arith, e, ==_iff user_a user_b, ==_iff user_b user_a, text_lt-flip user_a user_b e)
]
