-- ===== src/Tui/Display/Cursor.antt =====
-- Where the cursor is drawn, and the way back.
use Prim.Native.Char.{code}
use text.Mathlib.TextLemmas.{nil-append, append-nil, cons-append}
use room.Base.{
  ℕ, ◌+◌, ◌<◌, ◌≤◌, String, ◌<>◌, ◌≡◌, ◌⊎◌, refl, true, not, ◌&&◌, ◌||◌, some, arith, if◌then◌else◌,
  ltb, nat_eq, ◌∙◌,
}
use room.Tui.Text.{len_utf8, len_utf8_pos, len, len-append, slice_behind, len_pos, IsBoundary}
use room.Tui.Display.{
  overflows, advance, cursor_display_pos, find_offset, byte_offset_at_display_pos,
}

module _ (char_width : ℕ → ℕ) (width : ℕ) where
  -- What `advance` does for the characters in front of the cursor, and only for them.
  unfoldable pub walk : String → ℕ → ℕ → ℕ × ℕ
  walk String.[] row col = (row, col)
  walk (String.◌∷◌ c s) row col =
      let newline = walk s (row + 1) 0 in
      let next = walk s (row + 1) (char_width (code c)) in
      let same = walk s row (col + char_width (code c)) in
      if nat_eq (code c) b'\n'
      then newline
      else if ltb 0 width && overflows char_width width col (code c)
      then next
      else same

  advance-walk :
      (front behind : String) (i row col : ℕ)
      → advance char_width width (i + len front) (front <> behind) i row col ≡ walk front row col
  unfolding advance walk len
  advance-walk String.[] String.[] i row col = refl
  advance-walk String.[] (String.◌∷◌ c behind) i row col = rw nil-append (ground arith)
  advance-walk (String.◌∷◌ c front) behind i row col =
      let further = advance-walk front behind (i + len_utf8 (code c)) in
      let same : (i + len_utf8 (code c)) + len front ≡ i + (len_utf8 (code c) + len front) =
        omega arith in
      rw (cons-append c front) (
        ground (
          arith,
          len_utf8_pos (code c),
          same,
          further (row + 1) 0,
          further (row + 1) (char_width (code c)),
          further row (col + char_width (code c)),
        ))

  -- The rows and columns only grow.
  walk_grows :
      (s : String) (row col : ℕ)
      → (row < (walk s row col).0) ⊎ ((row ≡ (walk s row col).0) × (col ≤ (walk s row col).1))
  unfolding walk
  walk_grows String.[] row col = ground arith
  walk_grows (String.◌∷◌ c s) row col = ground (
    arith,
    walk_grows s (row + 1) 0,
    walk_grows s (row + 1) (char_width (code c)),
    walk_grows s row (col + char_width (code c)),
  )

  -- The row and the column in front of the rest: behind a full row, the next one.
  unfoldable pub adjust : String → ℕ × ℕ → ℕ × ℕ
  adjust String.[] (row, col) = (row, col)
  adjust (String.◌∷◌ c rest) (row, col) =
      if ltb 0 width && nat_eq col width && not (nat_eq (code c) b'\n')
      then (row + 1, 0)
      else (row, col)

  -- No character is without a width, but for the ends of lines.
  abbrev pub IsSpaced : String → Type 0
  IsSpaced String.[] = Unit
  IsSpaced (String.◌∷◌ c s) =
      ((nat_eq (code c) b'\n' || ltb 0 (char_width (code c))) ≡ true) × IsSpaced s

  IsSpaced-append : (s t : String) → IsSpaced (s <> t) → IsSpaced t
  IsSpaced-append String.[] t h = rw nil-append at h
  IsSpaced-append (String.◌∷◌ c s) t h = IsSpaced-append s t (rw cons-append at h).1

  -- At the cursor.
  find_offset-here :
      (behind : String) (i row col : ℕ)
      → IsSpaced behind
      → let (r, c) = adjust behind (row, col) in
        find_offset char_width r c width behind i row col ≡ i
  unfolding adjust find_offset
  find_offset-here String.[] i row col h = refl
  find_offset-here (String.◌∷◌ c behind) i row col h = ground (arith, h.0)

  adjust_grows :
      (rest : String) (row col : ℕ)
      → let (r, c) = adjust rest (row, col) in (row < r) ⊎ ((row ≡ r) × (col ≡ c))
  unfolding adjust
  adjust_grows String.[] row col = ground arith
  adjust_grows (String.◌∷◌ c rest) row col = ground arith

  -- A position that is reached from a row and a column is not in front of them.
  unfoldable pub reached : String → String → ℕ → ℕ → ℕ × ℕ
  reached front behind row col = adjust behind (walk front row col)

  reached_grows :
      (front behind : String) (row col : ℕ)
      → let (r, c) = reached front behind row col in (row < r) ⊎ ((row ≡ r) × (col ≤ c))
  unfolding reached
  reached_grows front behind row col = ground (
    arith,
    walk_grows front row col,
    adjust_grows behind (walk front row col).0 (walk front row col).1,
  )

  find_offset-walk :
      (front behind : String) (i row col : ℕ)
      → IsSpaced (front <> behind)
      → let (r, c) = reached front behind row col in
        find_offset char_width r c width (front <> behind) i row col ≡ i + len front
  unfolding reached walk find_offset len
  find_offset-walk String.[] behind i row col h =
      rw nil-append (find_offset-here behind i row col (rw nil-append at h) ∙ omega arith)
  find_offset-walk (String.◌∷◌ c front) behind i row col h =
      let h' : IsSpaced (String.◌∷◌ c (front <> behind)) = rw cons-append at h in
      let further = λ (r k : ℕ). find_offset-walk front behind (i + len_utf8 (code c)) r k h'.1 in
      let grows = reached_grows front behind in
      let w = char_width (code c) in
      rw (cons-append c front) (
        ground (
          arith,
          h'.0,
          further (row + 1) 0,
          further (row + 1) w,
          further row (col + w),
          grows (row + 1) 0,
          grows (row + 1) w,
          grows row (col + w),
        ))

  at_start :
      (front behind : String)
      → advance char_width width (len front) (front <> behind) 0 0 0 ≡ walk front 0 0
  at_start front behind =
      let from_zero : 0 + len front ≡ len front = omega arith in
      rw from_zero at (advance-walk front behind 0 0 0)

  pub cursor_display_pos-reached :
      (front behind : String)
      → cursor_display_pos char_width (front <> behind) (len front) width
        ≡ some (reached front behind 0 0)
  unfolding cursor_display_pos reached adjust
  cursor_display_pos-reached front String.[] = rw (at_start front "", append-nil) (ground arith)
  cursor_display_pos-reached front (String.◌∷◌ c rest) = ground (
    arith,
    at_start front (String.◌∷◌ c rest),
    slice_behind front (String.◌∷◌ c rest),
    len-append front (String.◌∷◌ c rest),
    len_pos c rest,
  )

  -- The column and the row of the cursor lead back to its position, at every width, where every character
  -- but the ends of lines has a width and the position is between two characters or at an end.
  pub byte_offset_at_display_pos-cursor_display_pos :
      (input : String) (cursor_pos : ℕ)
      → IsBoundary cursor_pos input
      → IsSpaced input
      → (row col : ℕ) × (cursor_display_pos char_width input cursor_pos width ≡ some (row, col))
        × (byte_offset_at_display_pos char_width input row col width ≡ cursor_pos)
  unfolding byte_offset_at_display_pos
  byte_offset_at_display_pos-cursor_display_pos input cursor_pos (front, behind, same, at_front) h =
      let there = reached front behind 0 0 in
      (
        there.0,
        there.1,
        rw (same, at_front) (cursor_display_pos-reached front behind),
        rw (same, at_front) (find_offset-walk front behind 0 0 0 (rw same at h) ∙ omega arith),
      )
