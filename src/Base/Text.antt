-- ===== src/Base/Text.antt =====
-- Rust's operations on texts that the source uses: prefixes, padding, decimal numbers, lines.
pub mod Decimal
pub mod Lines
pub mod Blank
pub mod Split
pub mod Bytes
pub mod Codec
use Prim.Native.Char.{code}
use Prim.Native.String.{count}
use text.Mathlib.TextLemmas.{nil-append, cons-append}
use room.Base.{
  ℕ, zero, suc, ◌-◌, String, ◌<>◌, ◌≡◌, Bool, true, false, Option, none, some, arith, List, [], ◌∷◌,
  nat_eq, if◌then◌else◌, is_some, ◌||◌, ◌==◌,
}

-- `s.strip_prefix(p)`, with `p` first
unfoldable pub strip_prefix : String → String → Option String
strip_prefix String.[] s = some s
strip_prefix (String.◌∷◌ p ps) String.[] = none
strip_prefix (String.◌∷◌ p ps) (String.◌∷◌ c s) =
    let rest = strip_prefix ps s in if nat_eq (code p) (code c) then rest else none

pub strip_prefix-append : (p s : String) → strip_prefix p (p <> s) ≡ some s
unfolding strip_prefix
strip_prefix-append String.[] s = rw nil-append
strip_prefix-append (String.◌∷◌ c p) s = rw cons-append (ground (arith, strip_prefix-append p s))

-- `s.chars().take(n)`
unfoldable pub take_chars : ℕ → String → String
take_chars zero s = ""
take_chars (suc n) String.[] = ""
take_chars (suc n) (String.◌∷◌ c s) = String.◌∷◌ c (take_chars n s)

unfoldable pub repeat : ℕ → String → String
repeat zero s = ""
repeat (suc n) s = s <> repeat n s

-- `format!("{:<n}", s)`: spaces up to `n` characters
unfoldable pub pad_right : ℕ → String → String
unfolding repeat
pad_right n s = s <> repeat (n - count s) " "

-- `parts.join(sep)`
unfoldable pub join : String → List String → String
join sep [] = ""
join sep (s ∷ []) = s
join sep (s ∷ (t ∷ rest)) = s <> (sep <> join sep (t ∷ rest))

-- `s.is_empty()`
unfoldable pub is_empty_text : String → Bool
is_empty_text String.[] = true
is_empty_text (String.◌∷◌ c s) = false

-- `s.contains(needle)`, with `needle` first
unfoldable pub contains : String → String → Bool
unfolding strip_prefix
contains needle String.[] = is_some (strip_prefix needle "")
contains needle (String.◌∷◌ c s) =
    is_some (strip_prefix needle (String.◌∷◌ c s)) || contains needle s

-- `s.ends_with(suffix)`, with `suffix` first
unfoldable pub ends_with : String → String → Bool
ends_with suffix String.[] = "" == suffix
ends_with suffix (String.◌∷◌ c s) = String.◌∷◌ c s == suffix || ends_with suffix s
