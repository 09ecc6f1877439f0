-- ===== src/Tui/Display.antt =====
-- crates/room-cli/src/tui/display.rs. `char_width` is `ch.width().unwrap_or(0)` of unicode_width; a
-- result of `none` is a panic.
pub mod Rows
pub mod Cursor
pub mod Boundaries
use Prim.Native.Char.{code}
use room.Base.{
  ℕ, suc, ◌+◌, ◌-◌, String, ◌<>◌, Bool, true, false, not, ◌&&◌, ◌||◌, Option, none, some, List, [],
  ◌∷◌, ◌++◌, if◌then◌else◌, ltb, leb, nat_eq,
}
use room.Base.Text.Blank.{is_whitespace}
use room.Tui.Text.{◌>>=◌, len_utf8, len, slice}

-- `input.split('\n')`, always with a part
unfoldable pub split_newlines : String → String × List String
split_newlines String.[] = ("", [])
split_newlines (String.◌∷◌ c s) =
    let (part, parts) = split_newlines s in
    if nat_eq (code c) b'\n' then ("", part ∷ parts) else (String.◌∷◌ c part, parts)

module _ (char_width : ℕ → ℕ) where
  -- Whether the next character begins a row.
  abbrev pub overflows : ℕ → ℕ → ℕ → Bool
  overflows width col c = ltb width (col + char_width c) && ltb 0 col

  -- The loop over the characters of a line, from the row that is being filled and its width.
  unfoldable pub wrap_line : ℕ → String → ℕ → String → List String
  wrap_line width current col String.[] = current ∷ []
  wrap_line width current col (String.◌∷◌ c s) =
      let same = wrap_line width (current <> String.◌∷◌ c "") (col + char_width (code c)) s in
      let next = wrap_line width (String.◌∷◌ c "") (char_width (code c)) s in
      if overflows width col (code c) then current ∷ next else same

  unfoldable pub wrap_lines : ℕ → List String → List String
  unfolding wrap_line
  wrap_lines width [] = []
  wrap_lines width (line ∷ lines) =
      (if nat_eq width 0 then line ∷ [] else wrap_line width "" 0 line) ++ wrap_lines width lines

  unfoldable pub wrap_input_display : String → ℕ → List String
  unfolding split_newlines wrap_lines
  wrap_input_display input width =
      let (part, parts) = split_newlines input in wrap_lines width (part ∷ parts)

  -- The row and the column behind the characters in front of the cursor: `i` is the index of the next.
  unfoldable pub advance : ℕ → ℕ → String → ℕ → ℕ → ℕ → ℕ × ℕ
  advance width cursor_pos String.[] i row col = (row, col)
  advance width cursor_pos (String.◌∷◌ c s) i row col =
      let newline = advance width cursor_pos s (i + len_utf8 (code c)) (row + 1) 0 in
      let next =
        advance width cursor_pos s (i + len_utf8 (code c)) (row + 1) (char_width (code c)) in
      let same =
        advance width cursor_pos s (i + len_utf8 (code c)) row (col + char_width (code c)) in
      if leb cursor_pos i
      then (row, col)
      else if nat_eq (code c) b'\n'
      then newline
      else if ltb 0 width && overflows width col (code c)
      then next
      else same

  abbrev pub starts_with_newline : String → Bool
  starts_with_newline String.[] = false
  starts_with_newline (String.◌∷◌ c s) = nat_eq (code c) b'\n'

  -- `input[cursor_pos..]` is taken only where the row is full and the cursor not at the end.
  unfoldable pub cursor_display_pos : String → ℕ → ℕ → Option (ℕ × ℕ)
  unfolding advance slice
  cursor_display_pos input cursor_pos width =
      let (row, col) = advance width cursor_pos input 0 0 0 in
      if ltb 0 width && nat_eq col width && ltb cursor_pos (len input)
      then (slice cursor_pos (len input) input >>= λ rest.
          some (if starts_with_newline rest then (row, col) else (row + 1, 0)))
      else some (row, col)

  -- The loop over the rest of the input: `i` is the index of its first character.
  unfoldable pub find_offset : ℕ → ℕ → ℕ → String → ℕ → ℕ → ℕ → ℕ
  find_offset target_row target_col width String.[] i row col = i
  find_offset target_row target_col width (String.◌∷◌ c s) i row col =
      let j = i + len_utf8 (code c) in
      let w = char_width (code c) in
      let newline = find_offset target_row target_col width s j (row + 1) 0 in
      let next = find_offset target_row target_col width s j (row + 1) w in
      let same = find_offset target_row target_col width s j row (col + w) in
      if nat_eq row target_row && (leb target_col col || nat_eq (code c) b'\n')
      then i
      else if nat_eq (code c) b'\n'
      then newline
      else if ltb 0 width && overflows width col (code c)
      then if nat_eq row target_row
        then i
        else if nat_eq (row + 1) target_row && leb target_col 0
        then i
        else next
      else same

  unfoldable pub byte_offset_at_display_pos : String → ℕ → ℕ → ℕ → ℕ
  unfolding find_offset
  byte_offset_at_display_pos input target_row target_col width =
      find_offset target_row target_col width input 0 0 0

-- `s.rfind('@')`: the parts in front of and behind the last `@`.
unfoldable pub split_last_at : String → Option (String × String)
split_last_at String.[] = none
split_last_at (String.◌∷◌ c s) = elim (split_last_at s) [
  | some (front, behind) ↦ some (String.◌∷◌ c front, behind)
  | none ↦ if nat_eq (code c) b'@' then some ("", s) else none
]

-- `query.contains([' ', '\n'])`
unfoldable pub has_break : String → Bool
has_break String.[] = false
has_break (String.◌∷◌ c s) = nat_eq (code c) b' ' || nat_eq (code c) b'\n' || has_break s

unfoldable pub find_at_context : String → ℕ → Option (Option (ℕ × String))
unfolding slice split_last_at has_break
find_at_context input cursor_pos = slice 0 cursor_pos input >>= λ before.
    some (elim (split_last_at before) [
      | none ↦ none
      | some (front, query) ↦ if has_break query then none else some (len front, query)
    ])

-- `s.char_indices()`, from the index `i`
unfoldable pub char_indices : ℕ → String → List (ℕ × ℕ)
char_indices i String.[] = []
char_indices i (String.◌∷◌ c s) = (i, code c) ∷ char_indices (i + len_utf8 (code c)) s

-- `rev()`
unfoldable pub rev_onto : List (ℕ × ℕ) → List (ℕ × ℕ) → List (ℕ × ℕ)
rev_onto out [] = out
rev_onto out (x ∷ xs) = rev_onto (x ∷ out) xs

-- The second phase of `prev_word_start`, and the first.
unfoldable pub word_back : ℕ → List (ℕ × ℕ) → ℕ
unfolding is_whitespace
word_back word_start [] = word_start
word_back word_start ((j, c) ∷ it) =
    let more = word_back j it in if is_whitespace c then j + len_utf8 c else more

unfoldable pub skip_back : List (ℕ × ℕ) → ℕ
unfolding word_back
skip_back [] = 0
skip_back ((i, c) ∷ it) =
    let more = skip_back it in if is_whitespace c then more else word_back i it

unfoldable pub prev_word_start : String → ℕ → Option ℕ
unfolding slice char_indices rev_onto skip_back
prev_word_start input cursor_pos =
    slice 0 cursor_pos input >>= λ before. some (skip_back (rev_onto [] (char_indices 0 before)))

-- The second phase of `next_word_end`, and the first.
unfoldable pub word_on : ℕ → ℕ → List (ℕ × ℕ) → ℕ
word_on end cursor_pos [] = end
word_on end cursor_pos ((i, c) ∷ it) =
    let more = word_on end cursor_pos it in if is_whitespace c then cursor_pos + i else more

unfoldable pub skip_on : ℕ → ℕ → List (ℕ × ℕ) → ℕ
unfolding word_on
skip_on end cursor_pos [] = end
skip_on end cursor_pos ((i, c) ∷ it) =
    let more = skip_on end cursor_pos it in
    if is_whitespace c then more else word_on end cursor_pos it

unfoldable pub next_word_end : String → ℕ → Option ℕ
unfolding slice char_indices skip_on
next_word_end input cursor_pos = slice cursor_pos (len input) input >>= λ after.
    some (skip_on (len input) cursor_pos (char_indices 0 after))
