-- ===== src/Poll/Tests.antt =====
-- Polls of concrete rooms.
use room.Base.{
  String, ◌≡◌, ◌≢◌, ◌++◌, refl, Bool, false, Option, none, some, List, [], ◌∷◌, ◌==◌, if◌then◌else◌,
  keep, arith, ==_iff,
}
use room.Base.Text.{is_empty_text}
use room.Base.Text.Blank.{trim, is_blank}
use room.Base.Text.Lines.{lines}
use room.Base.Text.Codec.{trimming, load_lines}
use room.Protocol.Message.{Message, message, direct_message, id, is_visible_to}
use room.Broker.Fanout.{Env}
use room.History.File.{load}
use room.Poll.Cursor.{read_cursor, write_cursor, seen_by, start_at, effective_since, poll_messages}
use room.Poll.Parts.{HasGoodIds}
use room.Poll.Filters.{Files}
use room.Poll.Commands.{cmd_query_history}
use room.Poll.Asked.{IsAnswer}
use room.Poll.Wanted.{cmd_query_history_lem}
use room.Query.Filter.{QueryFilter}
use room.Base.{ℕ, leb, ◌&&◌}
use room.Protocol.Events.{mentions_only}
use room.Poll.Once.{IsPolled, start, grows, polls, polled_once}

abbrev hello : Message (Unit {0})
hello = message "u1" "lobby" "alice" 50 (some 1) "hello"

abbrev secret : Message (Unit {0})
secret = direct_message "u2" "lobby" "alice" 51 (some 2) "eve" "psst"

abbrev reminder : Message (Unit {0})
reminder = message "u3" "lobby" "alice" 52 (some 3) "hello?"

abbrev decode : String → Option (Message (Unit {0}))
decode s = if s == "1" then some hello else if s == "2" then some secret else some reminder

abbrev env : Env (Unit {0})
env = record { codec = record { encode = λ m. none; decode = decode }; chat_fault = none }

abbrev early : Option String
early = some "1\n"

abbrev late : Option String
late = some "1\n2\n3\n"

early-loaded : load env early ≡ hello ∷ []
unfolding load load_lines lines is_blank trimming ◌==◌ trim
early-loaded = refl

late-loaded : load env late ≡ hello ∷ secret ∷ reminder ∷ []
unfolding load load_lines lines is_blank trimming ◌==◌ trim
late-loaded = refl

first_poll :
    poll_messages env none early none (some "bob") none none ≡ (some (hello ∷ []), some "u1")
unfolding poll_messages seen_by start_at effective_since read_cursor write_cursor load load_lines
    lines is_blank trimming is_visible_to id ◌==◌ trim
first_poll = refl

-- `bob` has polled before the last two messages come in.
earlier_poll : IsPolled env (some "bob") none late (some "u1") (hello ∷ [])
earlier_poll =
    grows early late (some "u1") (hello ∷ []) (secret ∷ reminder ∷ [])
      (rw (early-loaded, late-loaded) refl)
      (polls early none (some "u1") [] (hello ∷ []) first_poll (start early))

differs : (s t : String) → (s == t) ≡ false → s ≢ t
differs s t n e = ground (arith, n, e, ==_iff s t)

good : HasGoodIds (load env late)
unfolding id trim is_empty_text ◌==◌
good = rw late-loaded (
  (
    (differs "u2" "u1" refl, (differs "u3" "u1" refl, tt)),
    ((differs "u3" "u2" refl, tt), (tt, tt)),
  ),
  ((refl, refl), ((refl, refl), ((refl, refl), tt))),
)

polled_once_example :
    (result : List (Message (Unit {0}))) × (cursor : Option String) × (poll_messages env none late
        (some "u1")
        (some "bob")
        none
        none
      ≡ (some result, cursor))
    × ((hello ∷ []) ++ result ≡ keep (seen_by (some "bob") none) (load env late))
polled_once_example =
    polled_once env (some "bob") none late (some "u1") (hello ∷ []) earlier_poll good

abbrev files : Files
files = record {
  subscriptions = λ r. some "{}";
  event_filters = λ r. none;
  tier_codec = record { encode = λ d. none; decode = λ t. some (("bob", mentions_only) ∷ []) };
  filter_codec = record { encode = λ d. none; decode = λ t. none };
}

abbrev chats : String → Option String
chats r = if r == "lobby" then late else none

-- The newest message of the rooms.
abbrev filter : QueryFilter
filter = record {
  rooms = [];
  users = "alice" ∷ [];
  content_search = none;
  content_regex = none;
  after_seq = none;
  before_seq = none;
  after_ts = none;
  before_ts = none;
  mention_user = none;
  public_only = false;
  target_id = none;
  limit = some 1;
  ascending = false;
}

abbrev lower_case : ℕ → Bool
lower_case c = leb 97 c && leb c 122

abbrev rooms : List String
rooms = "lobby" ∷ "empty" ∷ []

cmd_query_history_example :
    IsAnswer lower_case files rooms "bob" env chats filter
      (cmd_query_history lower_case env files chats rooms "bob" filter)
cmd_query_history_example = cmd_query_history_lem lower_case files rooms "bob" env chats filter
