-- ===== src/Protocol/MessageId.antt =====
-- `format_message_id` and `parse_message_id` of crates/room-protocol/src/lib.rs. The texts of the errors
-- are not modelled.
use Prim.Native.Char.{code}
use text.Mathlib.TextLemmas.{nil-append, cons-append}
use room.Base.{
  ℕ, ◌<◌, ◌^◌, String, ◌<>◌, ◌≡◌, refl, true, Option, none, some, arith, if◌then◌else◌, nat_eq,
}
use room.Base.Text.Decimal.{
  to_decimal, parse_uint, parse_uint-to_decimal, all_digits, to_decimal-all_digits,
}

unfoldable pub format_message_id : String → ℕ → String
format_message_id room seq = room <> (":" <> to_decimal seq)

-- The parts in front of and behind the last colon, as `rfind(':')` finds it.
unfoldable pub split_at_last_colon : String → Option (String × String)
split_at_last_colon String.[] = none
split_at_last_colon (String.◌∷◌ c s) = elim (split_at_last_colon s) [
  | some (front, behind) ↦ some (String.◌∷◌ c front, behind)
  | none ↦ if nat_eq (code c) b':' then some ("", s) else none
]

unfoldable pub parse_message_id : String → Option (String × ℕ)
unfolding split_at_last_colon
parse_message_id id = elim (split_at_last_colon id) [
  | none ↦ none
  | some (room, seq_str) ↦ elim (parse_uint (2 ^ 64) seq_str) [
    | none ↦ none
    | some seq ↦ some (room, seq)
  ]
]

split_digits : (s : String) → all_digits s ≡ true → split_at_last_colon s ≡ none
unfolding split_at_last_colon
split_digits String.[] h = refl
split_digits (String.◌∷◌ c s) h = ground (arith, split_digits s)

split_at_last_colon-append :
    (room s : String)
    → all_digits s ≡ true
    → split_at_last_colon (room <> (":" <> s)) ≡ some (room, s)
unfolding split_at_last_colon
split_at_last_colon-append String.[] s h =
    rw (nil-append, cons-append, nil-append) (ground (arith, split_digits s h))
split_at_last_colon-append (String.◌∷◌ c room) s h =
    rw (cons-append c room, split_at_last_colon, split_at_last_colon-append room s h) refl

-- Reading back the id of a message gives its room and its number, for every room, also one with colons
-- in its name, and every u64.
pub parse_message_id-format_message_id :
    (room : String) (seq : ℕ)
    → seq < 2 ^ 64
    → parse_message_id (format_message_id room seq) ≡ some (room, seq)
unfolding parse_message_id format_message_id
parse_message_id-format_message_id room seq h =
    rw
      (
        parse_message_id,
        split_at_last_colon-append room (to_decimal seq) (to_decimal-all_digits seq),
        parse_uint-to_decimal (2 ^ 64) seq h,
      )
      refl
