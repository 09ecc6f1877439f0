-- ===== src/Tui/Input/Safe/Places.antt =====
-- The positions that the keys of crates/room-cli/src/tui/input.rs compute lie between characters.
use Prim.Native.Char.{Char, code}
use text.Mathlib.TextLemmas.{nil-append, append-nil, append_assoc, cons-append}
use room.Base.{
  ℕ, ◌+◌, ◌≤◌, ◌<◌, String, ◌<>◌, ◌≡◌, refl, sym, ap, ◌∙◌, ◌&&◌, List, [], ◌∷◌, arith, ltb, nat_eq,
}
use room.Tui.Text.{
  len_utf8, len_utf8_pos, len, len-append, slice, slice_front, slice_behind, split_at-IsBoundary,
  IsBoundary, IsSpan,
}
use room.Tui.Text.Positions.{Safe, Safe-bind, IsAt, IsAt-len, IsAt-end, IsAt-le, slice-Safe}
use room.Tui.Display.{
  advance, cursor_display_pos, prev_word_start, next_word_end, char_indices, rev_onto,
}
use room.Tui.Display.Boundaries.{prev_word_start_lem, next_word_end_lem}
use room.Tui.Input.Keys.{last_index, first_width}
use room.Tui.Input.Safe.{Safe-if}

-- Where an edit must look before the cursor.
HasLast : String → ℕ → Type 0
HasLast front i = (g : String) × (c : Char) × (front ≡ g <> String.◌∷◌ c "") × (i ≡ len g)

rev_onto-char_indices :
    (i : ℕ) (out : List (ℕ × ℕ)) (c : Char) (s : String)
    → (g : String) × (d : Char) × (it : List (ℕ × ℕ)) × (String.◌∷◌ c s ≡ g <> String.◌∷◌ d "")
      × (rev_onto out (char_indices i (String.◌∷◌ c s)) ≡ (i + len g, code d) ∷ it)
unfolding rev_onto char_indices len
rev_onto-char_indices i out c String.[] = (
  "",
  c,
  out,
  sym (nil-append (String.◌∷◌ c "")),
  ap (λ (n : ℕ). (n, code c) ∷ out) (omega arith),
)
rev_onto-char_indices i out c (String.◌∷◌ b s) =
    let (g, d, it, same, at_d) =
      rev_onto-char_indices (i + len_utf8 (code c)) ((i, code c) ∷ out) b s in
    let sum : (i + len_utf8 (code c)) + len g ≡ i + (len_utf8 (code c) + len g) = omega arith in
    (
      String.◌∷◌ c g,
      d,
      it,
      ap (λ t. String.◌∷◌ c t) same ∙ sym (cons-append c g (String.◌∷◌ d "")),
      at_d ∙ ap (λ (n : ℕ). (n, code d) ∷ it) sum,
    )

-- The last character of a text that is not empty begins at `last_index`.
last_index_lem : (front : String) → 0 < len front → HasLast front (last_index front)
unfolding last_index len HasLast
last_index_lem String.[] pos = absurd (omega (arith, pos))
last_index_lem (String.◌∷◌ c s) pos =
    let (g, d, it, same, at_d) = rev_onto-char_indices 0 [] c s in
    let at_zero : 0 + len g ≡ len g = omega arith in
    (g, d, same, rw (last_index, at_d, at_zero) refl)

pub last_index-Safe :
    (pos : ℕ) (s : String)
    → IsAt pos s
    → 0 < pos
    → Safe (slice 0 pos s) (λ before. (last_index before < pos) × IsAt (last_index before) s)
unfolding HasLast len
last_index-Safe pos s h lt =
    let (f, b, same, at_f) = split_at-IsBoundary pos s h in
    let (g, c, same', at_g) = last_index_lem f (omega (arith, at_f, lt)) in
    let longer : len f ≡ len g + (len_utf8 (code c) + 0) =
      ap len same' ∙ len-append g (String.◌∷◌ c "") in
    let at_last : IsAt (len g) (f <> b) =
      rw (same', append_assoc) (IsAt-len g (String.◌∷◌ c "" <> b)) in
    rw (same, at_f, slice_front f b, at_g) (omega (arith, longer, len_utf8_pos (code c)), at_last)

pub IsBoundary-IsAt : (pos : ℕ) (s : String) → IsBoundary pos s → IsAt pos s
IsBoundary-IsAt pos s (f, b, same, at_f) = rw (same, at_f) (IsAt-len f b)

first_width-IsAt :
    (front behind : String)
    → len front < len (front <> behind)
    → Safe (first_width behind) (λ w. IsAt (len front + w) (front <> behind))
unfolding first_width len
first_width-IsAt front String.[] lt = absurd (omega (arith, lt, ap len (append-nil front)))
first_width-IsAt front (String.◌∷◌ c b) lt =
    let one : len (String.◌∷◌ c "") ≡ len_utf8 (code c) = omega arith in
    rw (append_assoc, cons-append, nil-append, len-append, one) at
      (IsAt-len (front <> String.◌∷◌ c "") b)

-- The character behind a boundary ends at one.
pub first_width-Safe :
    (pos : ℕ) (s : String)
    → IsAt pos s
    → pos < len s
    → Safe (slice pos (len s) s) (λ after. Safe (first_width after) (λ w. IsAt (pos + w) s))
first_width-Safe pos s h lt =
    let (f, b, same, at_f) = split_at-IsBoundary pos s h in
    let lt' : len f < len (f <> b) = rw (same, at_f) at lt in
    rw (same, at_f, slice_behind f b) (first_width-IsAt f b lt')

-- A span between two boundaries.
IsSpan-IsAt :
    (start stop : ℕ) (s : String)
    → IsSpan start stop s
    → (start ≤ stop) × IsAt start s × IsAt stop s
IsSpan-IsAt start stop s (f, m, b, same, at_f, at_m) = (
  omega (arith, at_f, at_m),
  rw (same, at_f) (IsAt-len f (m <> b)),
  rw (same, at_m, ← len-append f m, ← append_assoc f m b) (IsAt-len (f <> m) b),
)

pub prev_word_start-Safe :
    (pos : ℕ) (s : String)
    → IsAt pos s
    → Safe (prev_word_start s pos) (λ start. (start ≤ pos) × IsAt start s)
prev_word_start-Safe pos s h =
    let (f, b, same, at_f) = split_at-IsBoundary pos s h in
    let (start, found, spans) = prev_word_start_lem f b in
    let (le, at_start, at_pos) = IsSpan-IsAt start (len f) (f <> b) spans in
    rw (same, at_f, found) (le, at_start)

pub next_word_end-Safe :
    (pos : ℕ) (s : String)
    → IsAt pos s
    → Safe (next_word_end s pos) (λ stop. (pos ≤ stop) × IsAt stop s)
next_word_end-Safe pos s h =
    let (f, b, same, at_f) = split_at-IsBoundary pos s h in
    let (stop, found, spans) = next_word_end_lem f b in
    let (le, at_pos, at_stop) = IsSpan-IsAt (len f) stop (f <> b) spans in
    rw (same, at_f, found) (le, at_stop)

pub cursor_display_pos-Safe :
    (char_width : ℕ → ℕ) (pos width : ℕ) (s : String)
    → IsAt pos s
    → Safe (cursor_display_pos char_width s pos width) (λ at_pos. Unit {0})
unfolding cursor_display_pos
cursor_display_pos-Safe char_width pos width s h =
    let (row, col) = advance char_width width pos s 0 0 0 in
    let here : ℕ × ℕ → Type 0 = λ at_pos. Unit {0} in
    Safe-if (ltb 0 width && nat_eq col width && ltb pos (len s)) _ _ here
      (λ e.
        Safe-bind (slice pos (len s) s) _ _ here
          (slice-Safe pos (len s) s (IsAt-le pos s h) h (IsAt-end s)) (λ rest t. tt))
      (λ e. tt)
