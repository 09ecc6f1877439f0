-- ===== src/Broker/Handshake.antt =====
-- crates/room-daemon/src/broker/handshake.rs: the first line of a connection.
use Prim.Native.Char.{code}
use text.Mathlib.TextLemmas.{nil-append, cons-append}
use room.Base.{
  String, ◌<>◌, ◌≡◌, refl, Bool, true, false, Option, none, some, arith, if◌then◌else◌, nat_eq,
}
use room.Base.Text.{strip_prefix, strip_prefix-append, is_empty_text}

pub data ClientHandshake : Type 0 where
  send token join session interactive : String → ClientHandshake

unfoldable pub parse_client_handshake : String → ClientHandshake
parse_client_handshake line = elim (strip_prefix "SEND:" line) [
  | some u ↦ send u
  | none ↦ elim (strip_prefix "TOKEN:" line) [
    | some t ↦ token t
    | none ↦ elim (strip_prefix "JOIN:" line) [
      | some u ↦ join u
      | none ↦ elim (strip_prefix "SESSION:" line) [ some t ↦ session t | none ↦ interactive line ]
    ]
  ]
]

pub data DaemonPrefix : Type 0 where
  create destroy join_daemon : String → DaemonPrefix
  to_room : (room_id rest : String) → DaemonPrefix
  unknown : DaemonPrefix

-- The parts in front of and behind the first colon, as `find(':')` finds it.
unfoldable pub split_at_colon : String → Option (String × String)
split_at_colon String.[] = none
split_at_colon (String.◌∷◌ c s) =
    let rest = split_at_colon s in
    if nat_eq (code c) b':'
    then some ("", s)
    else elim rest [ none ↦ none | some (front, behind) ↦ some (String.◌∷◌ c front, behind) ]

-- The end of `parse_daemon_prefix`: `ROOM:`, or nothing known.
unfoldable pub parse_room_prefix : String → DaemonPrefix
parse_room_prefix line = elim (strip_prefix "ROOM:" line) [
  | none ↦ unknown
  | some stripped ↦ elim (split_at_colon stripped) [
    | none ↦ unknown
    | some (room_id, rest) ↦ if is_empty_text room_id then unknown else to_room room_id rest
  ]
]

unfoldable pub parse_daemon_prefix : String → DaemonPrefix
unfolding parse_room_prefix
parse_daemon_prefix line = elim (strip_prefix "DESTROY:" line) [
  | some room_id ↦ destroy room_id
  | none ↦ elim (strip_prefix "CREATE:" line) [
    | some room_id ↦ create room_id
    | none ↦ elim (strip_prefix "JOIN:" line) [
      | some username ↦
          if is_empty_text username then parse_room_prefix line else join_daemon username
      | none ↦ parse_room_prefix line
    ]
  ]
]

-- The line that a client sends to reach a room of the daemon.
abbrev pub room_line : String → String → String
room_line room_id rest = "ROOM:" <> (room_id <> (":" <> rest))

abbrev has_colon : String → Bool
has_colon String.[] = false
has_colon (String.◌∷◌ c s) = if nat_eq (code c) b':' then true else has_colon s

split_at_colon-append :
    (front behind : String)
    → has_colon front ≡ false
    → split_at_colon (front <> (":" <> behind)) ≡ some (front, behind)
unfolding split_at_colon
split_at_colon-append String.[] behind h = rw (nil-append, cons-append, nil-append) refl
split_at_colon-append (String.◌∷◌ c front) behind h =
    rw (cons-append c front) (ground (arith, split_at_colon-append front behind))

room_line_unprefixed :
    (rest : String)
    → (strip_prefix "DESTROY:" ("ROOM:" <> rest) ≡ none)
      × (strip_prefix "CREATE:" ("ROOM:" <> rest) ≡ none)
      × (strip_prefix "JOIN:" ("ROOM:" <> rest) ≡ none)
unfolding strip_prefix
room_line_unprefixed rest = rw cons-append (refl, refl, refl)

-- The daemon reads back the room and the rest of the line that is sent to reach a room, for every rest,
-- also with colons, where the room's id is not empty and has no colon.
pub parse_daemon_prefix-room_line :
    (room_id rest : String)
    → is_empty_text room_id ≡ false
    → has_colon room_id ≡ false
    → parse_daemon_prefix (room_line room_id rest) ≡ to_room room_id rest
unfolding parse_daemon_prefix parse_room_prefix
parse_daemon_prefix-room_line room_id rest filled plain =
    let (d, c, j) = room_line_unprefixed (room_id <> (":" <> rest)) in
    rw
      (
        parse_daemon_prefix,
        d,
        c,
        j,
        parse_room_prefix,
        strip_prefix-append "ROOM:" (room_id <> (":" <> rest)),
        split_at_colon-append room_id rest plain,
        filled,
      )
      refl
