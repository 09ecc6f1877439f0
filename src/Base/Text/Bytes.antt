-- ===== src/Base/Text/Bytes.antt =====
-- How many bytes a text has in UTF-8.
use Prim.Native.Char.{code}
use room.Base.{ℕ, ◌+◌, String, if◌then◌else◌, ltb}

-- `char::len_utf8`
unfoldable pub len_utf8 : ℕ → ℕ
len_utf8 c = if ltb c 0x80 then 1 else if ltb c 0x800 then 2 else if ltb c 0x10000 then 3 else 4

-- `s.len()`
unfoldable pub len : String → ℕ
len String.[] = 0
len (String.◌∷◌ c s) = len_utf8 (code c) + len s
