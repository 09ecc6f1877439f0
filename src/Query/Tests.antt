-- ===== src/Query/Tests.antt =====
-- The query filter on a concrete message.
use room.Base.{ℕ, ◌≡◌, refl, ◌↔◌, Bool, true, none, some, [], ◌∷◌, leb, ◌&&◌, ◌==◌}
use room.Base.Text.{contains, is_empty_text}
use room.Base.Dict.{set_contains}
use room.Protocol.Mentions.{parse_mentions}
use room.Protocol.Message.{Message, message, is_direct_message, content, mentions, seq, ts}
use room.Query.Filter.{QueryFilter, matches}
use room.Query.Satisfies.{Satisfies, matches_iff}

abbrev filter : QueryFilter
filter = record {
  rooms = "lobby" ∷ [];
  users = [];
  content_search = some "parser";
  content_regex = none;
  after_seq = some ("lobby", 3);
  before_seq = none;
  after_ts = none;
  before_ts = some 90;
  mention_user = some "bob";
  public_only = true;
  target_id = none;
  limit = none;
  ascending = true;
}

abbrev lower_case : ℕ → Bool
lower_case c = leb 97 c && leb c 122

abbrev hello : Message (Unit {0})
hello = message "u1" "lobby" "alice" 50 (some 4) "@bob the parser is done"

matches_iff_example :
    (matches lower_case filter hello "lobby" ≡ true) ↔ Satisfies lower_case filter hello "lobby"
matches_iff_example = matches_iff lower_case filter hello "lobby"

abbrev far : QueryFilter
far = record filter { target_id = some ("lobby", 4); before_ts = some 1 }

hello_passes : matches lower_case filter hello "lobby" ≡ true
unfolding matches ◌==◌ is_direct_message content contains set_contains mentions parse_mentions
    is_empty_text seq ts
hello_passes = refl

-- A target is found whatever its time.
hello_is_target : matches lower_case far hello "lobby" ≡ true
unfolding matches ◌==◌ is_direct_message content contains set_contains mentions parse_mentions
    is_empty_text seq ts
hello_is_target = refl
