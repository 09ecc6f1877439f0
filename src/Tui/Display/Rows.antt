-- ===== src/Tui/Display/Rows.antt =====
-- The rows of the input box, and the cursor at the end of the input.
use Prim.Native.Char.{Char, code}
use text.Mathlib.TextLemmas.{nil-append, append-nil, append_assoc, cons-append}
use room.Base.{
  ℕ, ◌+◌, ◌<◌, ◌≤◌, String, ◌<>◌, ◌≡◌, refl, true, false, ◌&&◌, some, arith, if◌then◌else◌, ltb,
  nat_eq, ◌∙◌, Bool-cases, inl, inr, List, [], ◌∷◌, ◌++◌, length, All,
}
use room.Tui.Text.{len}
use room.Tui.Display.{
  split_newlines, overflows, wrap_line, wrap_lines, wrap_input_display, cursor_display_pos,
}
use room.Tui.Display.Cursor.{walk, adjust, reached, cursor_display_pos-reached}

module _ (char_width : ℕ → ℕ) (width : ℕ) where
  -- The rows from a row that is being filled on.
  rows_from : String → ℕ → String → List String
  rows_from current col input =
      let (part, parts) = split_newlines input in
      (if nat_eq width 0
        then (current <> part) ∷ []
        else wrap_line char_width width current col part)
      ++ wrap_lines char_width width parts

  split-newline :
      (c : Char) (s : String)
      → nat_eq (code c) b'\n' ≡ true
      → split_newlines (String.◌∷◌ c s) ≡ ("", (split_newlines s).0 ∷ (split_newlines s).1)
  unfolding split_newlines
  split-newline c s e = rw e

  split-other :
      (c : Char) (s : String)
      → nat_eq (code c) b'\n' ≡ false
      → split_newlines (String.◌∷◌ c s) ≡ (String.◌∷◌ c (split_newlines s).0, (split_newlines s).1)
  unfolding split_newlines
  split-other c s e = rw e

  rows_from-end : (current : String) (col : ℕ) → rows_from current col "" ≡ current ∷ []
  unfolding rows_from split_newlines wrap_lines wrap_line
  rows_from-end current col = elim (Bool-cases (nat_eq width 0)) [
    | inl z ↦ rw (z, append-nil) refl
    | inr z ↦ rw z refl
  ]

  rows_from-newline :
      (c : Char) (s current : String) (col : ℕ)
      → nat_eq (code c) b'\n' ≡ true
      → rows_from current col (String.◌∷◌ c s) ≡ current ∷ rows_from "" 0 s
  unfolding rows_from wrap_lines wrap_line
  rows_from-newline c s current col e = elim (Bool-cases (nat_eq width 0)) [
    | inl z ↦ rw (split-newline c s e, z, append-nil, nil-append) refl
    | inr z ↦ rw (split-newline c s e, z) refl
  ]

  rows_from-next :
      (c : Char) (s current : String) (col : ℕ)
      → nat_eq (code c) b'\n' ≡ false
      → (ltb 0 width && overflows char_width width col (code c)) ≡ true
      → rows_from current col (String.◌∷◌ c s)
        ≡ current ∷ rows_from (String.◌∷◌ c "") (char_width (code c)) s
  unfolding rows_from wrap_line
  rows_from-next c s current col e o =
      let wide : nat_eq width 0 ≡ false = ground (arith, o) in
      let over : overflows char_width width col (code c) ≡ true = ground (arith, o) in
      rw (split-other c s e, wide, wrap_line, over) refl

  rows_from-same :
      (c : Char) (s current : String) (col : ℕ)
      → nat_eq (code c) b'\n' ≡ false
      → (ltb 0 width && overflows char_width width col (code c)) ≡ false
      → rows_from current col (String.◌∷◌ c s)
        ≡ rows_from (current <> String.◌∷◌ c "") (col + char_width (code c)) s
  unfolding rows_from wrap_line
  rows_from-same c s current col e o = elim (Bool-cases (nat_eq width 0)) [
    | inl z ↦ rw (split-other c s e, z, append_assoc, cons-append, nil-append) refl
    | inr z ↦
        let fits : overflows char_width width col (code c) ≡ false = ground (arith, o, z) in
        rw (split-other c s e, z, wrap_line, fits) refl
  ]

  rows_from-walk :
      (input current : String) (row col : ℕ)
      → length (rows_from current col input) + row ≡ (walk char_width width input row col).0 + 1
  unfolding walk
  rows_from-walk String.[] current row col = rw (rows_from-end current col) (omega arith)
  rows_from-walk (String.◌∷◌ c s) current row col = ground (
    arith,
    rows_from-newline c s current col,
    rows_from-next c s current col,
    rows_from-same c s current col,
    rows_from-walk s "" (row + 1) 0,
    rows_from-walk s (String.◌∷◌ c "") (row + 1) (char_width (code c)),
    rows_from-walk s (current <> String.◌∷◌ c "") row (col + char_width (code c)),
  )

  wrap_input_display-rows_from :
      (input : String) → wrap_input_display char_width input width ≡ rows_from "" 0 input
  unfolding wrap_input_display rows_from wrap_lines
  wrap_input_display-rows_from input = rw nil-append refl

  -- The rows that are shown are as many as the row of the cursor at the end of the input asks for, at
  -- every width.
  pub wrap_input_display-cursor :
      (input : String)
      → (row col : ℕ) × (cursor_display_pos char_width input (len input) width ≡ some (row, col))
        × (length (wrap_input_display char_width input width) ≡ row + 1)
  unfolding reached adjust
  wrap_input_display-cursor input =
      let (row, col) = walk char_width width input 0 0 in
      (
        row,
        col,
        rw append-nil at (cursor_display_pos-reached char_width width input ""),
        rw wrap_input_display-rows_from (omega (arith, rows_from-walk input "" 0 0)),
      )

  -- The text without the ends of lines, and rows behind one another.
  abbrev pub joined : String → String
  joined String.[] = ""
  joined (String.◌∷◌ c s) = if nat_eq (code c) b'\n' then joined s else String.◌∷◌ c (joined s)

  abbrev pub concat_rows : List String → String
  concat_rows [] = ""
  concat_rows (r ∷ rows) = r <> concat_rows rows

  rows_from-joined :
      (input current : String) (col : ℕ)
      → concat_rows (rows_from current col input) ≡ current <> joined input
  rows_from-joined String.[] current col = rw (rows_from-end current col) refl
  rows_from-joined (String.◌∷◌ c s) current col = elim (Bool-cases (nat_eq (code c) b'\n')) [
    | inl e ↦ rw (rows_from-newline c s current col e, e, rows_from-joined s "" 0, nil-append) refl
    | inr e ↦ elim (Bool-cases (ltb 0 width && overflows char_width width col (code c))) [
      | inl o ↦
          rw
            (
              rows_from-next c s current col e o,
              e,
              rows_from-joined s (String.◌∷◌ c "") (char_width (code c)),
              cons-append,
              nil-append,
            )
            refl
      | inr o ↦
          rw
            (
              rows_from-same c s current col e o,
              e,
              rows_from-joined s (current <> String.◌∷◌ c "") (col + char_width (code c)),
              append_assoc,
              cons-append,
              nil-append,
            )
            refl
    ]
  ]

  abbrev pub text_width : String → ℕ
  text_width String.[] = 0
  text_width (String.◌∷◌ c s) = char_width (code c) + text_width s

  -- No character is wider than a row.
  abbrev pub IsNarrow : String → Type 0
  IsNarrow String.[] = Unit
  IsNarrow (String.◌∷◌ c s) = (char_width (code c) ≤ width) × IsNarrow s

  text_width-snoc :
      (s : String) (c : Char)
      → text_width (s <> String.◌∷◌ c "") ≡ text_width s + char_width (code c)
  text_width-snoc String.[] c = rw nil-append (omega arith)
  text_width-snoc (String.◌∷◌ d s) c = rw cons-append (omega (arith, text_width-snoc s c))

  fits_behind :
      (col w : ℕ)
      → w ≤ width
      → 0 < width
      → (ltb 0 width && (ltb width (col + w) && ltb 0 col)) ≡ false
      → col + w ≤ width
  fits_behind col w narrow wide o = ground (arith, o)

  rows_from-fit :
      (input current : String) (col : ℕ)
      → 0 < width
      → IsNarrow input
      → text_width current ≡ col
      → col ≤ width
      → All (λ r. text_width r ≤ width) (rows_from current col input)
  rows_from-fit String.[] current col wide narrow same h =
      rw (rows_from-end current col) (omega (arith, same), tt)
  rows_from-fit (String.◌∷◌ c s) current col wide narrow same h =
      let w = char_width (code c) in
      let fits : text_width current ≤ width = omega (arith, same) in
      elim (Bool-cases (nat_eq (code c) b'\n')) [
        | inl e ↦
            rw (rows_from-newline c s current col e)
              (fits, rows_from-fit s "" 0 wide narrow.1 refl (omega arith))
        | inr e ↦ elim (Bool-cases (ltb 0 width && overflows char_width width col (code c))) [
          | inl o ↦
              rw (rows_from-next c s current col e o)
                (fits, rows_from-fit s (String.◌∷◌ c "") w wide narrow.1 (omega arith) narrow.0)
          | inr o ↦
              let longer : text_width (current <> String.◌∷◌ c "") ≡ col + w =
                omega (arith, text_width-snoc current c, same) in
              rw (rows_from-same c s current col e o) (
                rows_from-fit s (current <> String.◌∷◌ c "") (col + w) wide narrow.1 longer
                  (fits_behind col w narrow.0 wide o))
        ]
      ]

  -- Behind one another the rows are the input without its ends of lines, and where the box has a width and
  -- no character is wider than it, each row fits into it.
  pub wrap_input_display_lem :
      (input : String)
      → 0 < width
      → IsNarrow input
      → let rows = wrap_input_display char_width input width in
        (concat_rows rows ≡ joined input) × All (λ r. text_width r ≤ width) rows
  wrap_input_display_lem input wide narrow = rw wrap_input_display-rows_from (
    rows_from-joined input "" 0 ∙ nil-append (joined input),
    rows_from-fit input "" 0 wide narrow refl (omega arith),
  )
