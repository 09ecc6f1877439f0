-- ===== src/Base/Text/Blank.antt =====
-- `char::is_whitespace`, `s.trim()`, and the test `s.trim().is_empty()`.
use Prim.Native.Char.{code}
use room.Base.{ℕ, String, Bool, true, ◌&&◌, ◌||◌, nat_eq, leb, if◌then◌else◌}

unfoldable pub is_whitespace : ℕ → Bool
is_whitespace c =
    (leb 9 c && leb c 13)
    || nat_eq c 32
    || nat_eq c 0x85
    || nat_eq c 0xa0
    || nat_eq c 0x1680
    || (leb 0x2000 c && leb c 0x200a)
    || nat_eq c 0x2028
    || nat_eq c 0x2029
    || nat_eq c 0x202f
    || nat_eq c 0x205f
    || nat_eq c 0x3000

unfoldable pub is_blank : String → Bool
unfolding is_whitespace
is_blank String.[] = true
is_blank (String.◌∷◌ c s) = is_whitespace (code c) && is_blank s

unfoldable pub trim_start : String → String
unfolding is_whitespace
trim_start String.[] = ""
trim_start (String.◌∷◌ c s) =
    let rest = trim_start s in if is_whitespace (code c) then rest else String.◌∷◌ c s

unfoldable pub trim_end : String → String
unfolding is_whitespace is_blank
trim_end String.[] = ""
trim_end (String.◌∷◌ c s) = if is_blank (String.◌∷◌ c s) then "" else String.◌∷◌ c (trim_end s)

unfoldable pub trim : String → String
unfolding trim_start trim_end
trim s = trim_end (trim_start s)
