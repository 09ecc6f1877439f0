-- ===== src/Protocol/Tests.antt =====
-- The protocol on concrete texts.
use room.Base.{ℕ, String, ◌≡◌, ◌≢◌, refl, Bool, some, [], ◌∷◌, leb, ◌&&◌, arith, ==_iff, ◌==◌}
use room.Base.Text.{is_empty_text}
use room.Base.Dict.{set_contains}
use room.Base.Text.Blank.{trim}
use room.Protocol.Events.{task_posted, task_finished, only, show_event, parse_event}
use room.Protocol.EventFilter.{parse_filter}
use room.Protocol.Mentions.{parse_mentions}
use room.Protocol.MessageId.{
  format_message_id, parse_message_id, parse_message_id-format_message_id,
}

abbrev lower_case : ℕ → Bool
lower_case c = leb 97 c && leb c 122

parse_message_id-format_message_id_example :
    parse_message_id (format_message_id "team:lobby" 42) ≡ some ("team:lobby", 42)
parse_message_id-format_message_id_example =
    parse_message_id-format_message_id "team:lobby" 42 (ground arith)

mentions_of_three : parse_mentions lower_case "@bob, mail a@b or @carol @bob" ≡ "bob" ∷ "carol" ∷ []
unfolding parse_mentions is_empty_text set_contains ◌==◌
mentions_of_three = refl

abbrev csv : String
csv = "task_posted, task_finished"

csv_read : parse_filter csv ≡ some (only (task_finished ∷ task_posted ∷ []))
unfolding parse_filter ◌==◌ is_empty_text trim parse_event show_event
csv_read = refl

abbrev bob : String
bob = "bob"

abbrev alice : String
alice = "alice"

bob_is_not_alice : bob ≢ alice
unfolding ◌==◌
bob_is_not_alice e = ground (arith, (==_iff bob alice).1 e)
