-- ===== src/Protocol/Message.antt =====
-- `Message` of crates/room-protocol/src/lib.rs. `J` stands for `serde_json::Value`; a `DateTime<Utc>` is
-- a number of nanoseconds.
use room.Base.{
  ℕ, String, ◌≡◌, refl, Bool, true, false, ◌||◌, Option, none, some, List, [], ◌==◌, is_some_of,
}
use room.Protocol.Events.{EventType}
use room.Protocol.Mentions.{parse_mentions}

pub data Message (J : Type 0) : Type 0 where
  join leave : (id room user : String) (ts : ℕ) (seq : Option ℕ) → Message J
  message : (id room user : String) (ts : ℕ) (seq : Option ℕ) (content : String) → Message J
  reply : (id room user : String) (ts : ℕ) (seq : Option ℕ) (reply_to content : String) → Message J
  command :
      (id room user : String) (ts : ℕ) (seq : Option ℕ) (cmd : String) (params : List String)
      → Message J
  system :
      (id room user : String) (ts : ℕ) (seq : Option ℕ) (content : String) (data_of : Option J)
      → Message J
  direct_message :
      (id room user : String) (ts : ℕ) (seq : Option ℕ) (to content : String) → Message J
  event :
      (id room user : String) (ts : ℕ) (seq : Option ℕ) (event_type : EventType) (content : String)
      (params : Option J)
      → Message J

module _ {J : Type 0} where
  unfoldable pub id : Message J → String
  id (join i r u t s) = i
  id (leave i r u t s) = i
  id (message i r u t s c) = i
  id (reply i r u t s to c) = i
  id (command i r u t s cmd ps) = i
  id (system i r u t s c d) = i
  id (direct_message i r u t s to c) = i
  id (event i r u t s e c ps) = i

  unfoldable pub room_of : Message J → String
  room_of (join i r u t s) = r
  room_of (leave i r u t s) = r
  room_of (message i r u t s c) = r
  room_of (reply i r u t s to c) = r
  room_of (command i r u t s cmd ps) = r
  room_of (system i r u t s c d) = r
  room_of (direct_message i r u t s to c) = r
  room_of (event i r u t s e c ps) = r

  unfoldable pub user : Message J → String
  user (join i r u t s) = u
  user (leave i r u t s) = u
  user (message i r u t s c) = u
  user (reply i r u t s to c) = u
  user (command i r u t s cmd ps) = u
  user (system i r u t s c d) = u
  user (direct_message i r u t s to c) = u
  user (event i r u t s e c ps) = u

  unfoldable pub ts : Message J → ℕ
  ts (join i r u t s) = t
  ts (leave i r u t s) = t
  ts (message i r u t s c) = t
  ts (reply i r u t s to c) = t
  ts (command i r u t s cmd ps) = t
  ts (system i r u t s c d) = t
  ts (direct_message i r u t s to c) = t
  ts (event i r u t s e c ps) = t

  unfoldable pub seq : Message J → Option ℕ
  seq (join i r u t s) = s
  seq (leave i r u t s) = s
  seq (message i r u t s c) = s
  seq (reply i r u t s to c) = s
  seq (command i r u t s cmd ps) = s
  seq (system i r u t s c d) = s
  seq (direct_message i r u t s to c) = s
  seq (event i r u t s e c ps) = s

  unfoldable pub content : Message J → Option String
  content (join i r u t s) = none
  content (leave i r u t s) = none
  content (message i r u t s c) = some c
  content (reply i r u t s to c) = some c
  content (command i r u t s cmd ps) = none
  content (system i r u t s c d) = some c
  content (direct_message i r u t s to c) = some c
  content (event i r u t s e c ps) = some c

  -- `alphanumeric` is `char::is_alphanumeric`, on the number of the character.
  unfoldable pub mentions : (ℕ → Bool) → Message J → List String
  unfolding content
  mentions alphanumeric m = elim (content m) [ none ↦ [] | some c ↦ parse_mentions alphanumeric c ]

  unfoldable pub is_visible_to : Message J → String → Option String → Bool
  is_visible_to (direct_message i r u t s to c) viewer host =
      viewer == u || viewer == to || is_some_of host viewer
  is_visible_to _ viewer host = true

  unfoldable pub is_direct_message : Message J → Bool
  is_direct_message (direct_message i r u t s to c) = true
  is_direct_message _ = false

  unfoldable pub set_seq : ℕ → Message J → Message J
  set_seq n (join i r u t s) = join i r u t (some n)
  set_seq n (leave i r u t s) = leave i r u t (some n)
  set_seq n (message i r u t s c) = message i r u t (some n) c
  set_seq n (reply i r u t s to c) = reply i r u t (some n) to c
  set_seq n (command i r u t s cmd ps) = command i r u t (some n) cmd ps
  set_seq n (system i r u t s c d) = system i r u t (some n) c d
  set_seq n (direct_message i r u t s to c) = direct_message i r u t (some n) to c
  set_seq n (event i r u t s e c ps) = event i r u t (some n) e c ps

  -- A message that is numbered has that number, and its other fields and its viewers as they were.
  pub set_seq-fields :
      (n : ℕ) (m : Message J) (viewer : String) (host : Option String)
      → (seq (set_seq n m) ≡ some n)
        × (id (set_seq n m) ≡ id m)
        × (room_of (set_seq n m) ≡ room_of m)
        × (user (set_seq n m) ≡ user m)
        × (ts (set_seq n m) ≡ ts m)
        × (content (set_seq n m) ≡ content m)
        × (is_visible_to (set_seq n m) viewer host ≡ is_visible_to m viewer host)
  unfolding seq id room_of user ts content is_visible_to set_seq
  set_seq-fields n (join i r u t s) v h = (refl, refl, refl, refl, refl, refl, refl)
  set_seq-fields n (leave i r u t s) v h = (refl, refl, refl, refl, refl, refl, refl)
  set_seq-fields n (message i r u t s c) v h = (refl, refl, refl, refl, refl, refl, refl)
  set_seq-fields n (reply i r u t s to c) v h = (refl, refl, refl, refl, refl, refl, refl)
  set_seq-fields n (command i r u t s cmd ps) v h = (refl, refl, refl, refl, refl, refl, refl)
  set_seq-fields n (system i r u t s c d) v h = (refl, refl, refl, refl, refl, refl, refl)
  set_seq-fields n (direct_message i r u t s to c) v h = (refl, refl, refl, refl, refl, refl, refl)
  set_seq-fields n (event i r u t s e c ps) v h = (refl, refl, refl, refl, refl, refl, refl)
