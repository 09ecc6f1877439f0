-- ===== src/Tui/Display/Boundaries.antt =====
-- The positions that the functions of display.rs return are boundaries of characters.
use Prim.Native.Char.{Char, code}
use text.Mathlib.TextLemmas.{nil-append, append-nil, append_assoc, cons-append}
use mathlib.Core.Path.{subst}
use mathlib.Core.Option.{none-ne-some, some-injective}
use room.Base.{
  ℕ, ◌+◌, ◌-◌, ◌≤◌, String, ◌<>◌, ◌≡◌, refl, Bool, true, false, ◌&&◌, ◌||◌, Option, none, some,
  arith, if◌then◌else◌, ltb, leb, nat_eq, ap, ◌∙◌, sym, List, [], ◌∷◌, All, Bool-cases, inl, inr,
  is_some, Option-cases,
}
use room.Base.Text.Blank.{is_whitespace}
use room.Tui.Text.{
  len_utf8, len_utf8_pos, len, len-append, split_at, split_at_lem, split_at_zero,
  split_at-IsBoundary, slice_front, slice_behind, IsBoundary, IsSpan,
}
use room.Tui.Display.{
  overflows, find_offset, byte_offset_at_display_pos, split_last_at, has_break, find_at_context,
  char_indices, rev_onto, word_back, skip_back, prev_word_start, word_on, skip_on, next_word_end,
}

-- What holds of both branches holds of an `if`.
if_elim {ℓ κ} :
    {A : Type ℓ} (P : A → Type κ) (b : Bool) (x y : A) → P x → P y → P (if b then x else y)
if_elim P true x y hx hy = hx
if_elim P false x y hx hy = hy

-- Counted from the index `i` of its first character, the text splits at `found`.
Splits : ℕ → String → ℕ → Type 0
Splits i s found = (i ≤ found) × (is_some (split_at (found - i) s) ≡ true)

Splits-here : (i : ℕ) (s : String) → Splits i s i
unfolding Splits
Splits-here i s =
    let none_left : i - i ≡ 0 = omega arith in (omega arith, rw (none_left, split_at_zero s) refl)

Splits-later :
    (i : ℕ) (c : Char) (s : String) (found : ℕ)
    → Splits (i + len_utf8 (code c)) s found
    → Splits i (String.◌∷◌ c s) found
unfolding Splits split_at
Splits-later i c s found h =
    let left : (found - i) - len_utf8 (code c) ≡ found - (i + len_utf8 (code c)) = omega arith in
    ground (arith, len_utf8_pos (code c), left, h.0, h.1)

module _ (char_width : ℕ → ℕ) (target_row target_col width : ℕ) where
  find_offset-Splits :
      (s : String) (i row col : ℕ)
      → Splits i s (find_offset char_width target_row target_col width s i row col)
  unfolding find_offset
  find_offset-Splits String.[] i row col = Splits-here i ""
  find_offset-Splits (String.◌∷◌ c s) i row col =
      let w = char_width (code c) in
      let j = i + len_utf8 (code c) in
      let found = find_offset char_width target_row target_col width s j in
      let P = Splits i (String.◌∷◌ c s) in
      let here = Splits-here i (String.◌∷◌ c s) in
      let later = λ (r k : ℕ). Splits-later i c s (found r k) (find_offset-Splits s j r k) in
      let wraps = ltb 0 width && overflows char_width width col (code c) in
      if_elim P (nat_eq row target_row && (leb target_col col || nat_eq (code c) b'\n')) _ _ here (
        if_elim P (nat_eq (code c) b'\n') _ _ (later (row + 1) 0) (
          if_elim P wraps _ _
            (if_elim P (nat_eq row target_row) _ _ here (
              if_elim P (nat_eq (row + 1) target_row && leb target_col 0) _ _ here
                (later (row + 1) w)))
            (later row (col + w))))

  pub byte_offset_at_display_pos-IsBoundary :
      (input : String)
      → IsBoundary (byte_offset_at_display_pos char_width input target_row target_col width) input
  unfolding byte_offset_at_display_pos Splits
  byte_offset_at_display_pos-IsBoundary input =
      let found = find_offset char_width target_row target_col width input 0 0 0 in
      let same : found - 0 ≡ found = omega arith in
      split_at-IsBoundary found input (rw same at (find_offset-Splits input 0 0 0).1)

split_last_at_lem :
    (s front behind : String)
    → split_last_at s ≡ some (front, behind)
    → (c : Char) × (s ≡ front <> String.◌∷◌ c behind)
unfolding split_last_at
split_last_at_lem String.[] front behind e = absurd (none-ne-some (front, behind) e)
split_last_at_lem (String.◌∷◌ c s) front behind e = elim (Option-cases (split_last_at s)) [
  | inl n ↦ elim (Bool-cases (nat_eq (code c) b'@')) [
    | inl h ↦
        let parts = some-injective ("", s) (front, behind) (rw (n, h) at e) in
        (c, rw (← ap (λ p. p.0) parts, ← ap (λ p. p.1) parts) (sym (nil-append (String.◌∷◌ c s))))
    | inr h ↦ absurd (none-ne-some (front, behind) (rw (n, h) at e))
  ]
  | inr ((f, b), n) ↦
      let parts = some-injective (String.◌∷◌ c f, b) (front, behind) (rw n at e) in
      let (d, same) = split_last_at_lem s f b n in
      (
        d,
        rw (← ap (λ p. p.0) parts, ← ap (λ p. p.1) parts)
            (ap (λ t. String.◌∷◌ c t) same ∙ sym (cons-append c f (String.◌∷◌ d b))),
      )
]

-- An index that a text has, with what is behind the character there.
abbrev Fits : String → ℕ × ℕ → Type 0
Fits before (i, c) =
    (is_some (split_at i before) ≡ true) × (is_some (split_at (i + len_utf8 c) before) ≡ true)

char_indices-Fits : (front s : String) → All (Fits (front <> s)) (char_indices (len front) s)
unfolding char_indices len
char_indices-Fits front String.[] = tt
char_indices-Fits front (String.◌∷◌ c s) =
    let whole : (front <> String.◌∷◌ c "") <> s ≡ front <> String.◌∷◌ c s =
      rw (append_assoc, cons-append, nil-append) refl in
    let longer : len (front <> String.◌∷◌ c "") ≡ len front + len_utf8 (code c) =
      omega (arith, len-append front (String.◌∷◌ c "")) in
    let rest = rw (whole, longer) at (char_indices-Fits (front <> String.◌∷◌ c "") s) in
    (
      (
        rw (split_at_lem front (String.◌∷◌ c s)) refl,
        rw (← longer, ← whole, split_at_lem (front <> String.◌∷◌ c "") s) refl,
      ),
      rest,
    )

rev_onto-All :
    (P : ℕ × ℕ → Type 0) (out xs : List (ℕ × ℕ)) → All P out → All P xs → All P (rev_onto out xs)
unfolding rev_onto
rev_onto-All P out [] ho hx = ho
rev_onto-All P out (x ∷ xs) ho hx = rev_onto-All P (x ∷ out) xs (hx.0, ho) hx.1

word_back-splits :
    (before : String) (start : ℕ) (it : List (ℕ × ℕ))
    → is_some (split_at start before) ≡ true
    → All (Fits before) it
    → is_some (split_at (word_back start it) before) ≡ true
unfolding word_back
word_back-splits before start [] h all = h
word_back-splits before start ((j, c) ∷ it) h all =
    ground (arith, word_back-splits before j it all.0.0 all.1, all.0.1)

skip_back-splits :
    (before : String) (it : List (ℕ × ℕ))
    → All (Fits before) it
    → is_some (split_at (skip_back it) before) ≡ true
unfolding skip_back
skip_back-splits before [] all = rw (split_at_zero before) refl
skip_back-splits before ((i, c) ∷ it) all =
    ground (arith, skip_back-splits before it all.1, word_back-splits before i it all.0.0 all.1)

Splits-end : (i : ℕ) (s : String) → Splits i s (i + len s)
unfolding Splits
Splits-end i s =
    let left : (i + len s) - i ≡ len s = omega arith in
    let all : split_at (len s) s ≡ some (s, "") = rw append-nil at (split_at_lem s "") in
    (omega arith, rw (left, all) refl)

Splits-shift : (i k : ℕ) (s : String) → is_some (split_at k s) ≡ true → Splits i s (i + k)
unfolding Splits
Splits-shift i k s h = let left : (i + k) - i ≡ k = omega arith in (omega arith, rw left h)

word_on-Splits :
    (s : String) (end i : ℕ) (it : List (ℕ × ℕ))
    → Splits i s end
    → All (Fits s) it
    → Splits i s (word_on end i it)
unfolding word_on
word_on-Splits s end i [] h all = h
word_on-Splits s end i ((k, c) ∷ it) h all =
    if_elim (Splits i s) (is_whitespace c) _ _ (Splits-shift i k s all.0.0)
      (word_on-Splits s end i it h all.1)

skip_on-Splits :
    (s : String) (end i : ℕ) (it : List (ℕ × ℕ))
    → Splits i s end
    → All (Fits s) it
    → Splits i s (skip_on end i it)
unfolding skip_on
skip_on-Splits s end i [] h all = h
skip_on-Splits s end i ((k, c) ∷ it) h all =
    if_elim (Splits i s) (is_whitespace c) _ _ (skip_on-Splits s end i it h all.1)
      (word_on-Splits s end i it h all.1)

-- In a text that is cut at a boundary.
module _ (front behind : String) where
  pub prev_word_start_lem :
      (start : ℕ) × (prev_word_start (front <> behind) (len front) ≡ some start)
      × IsSpan start (len front) (front <> behind)
  unfolding prev_word_start len
  prev_word_start_lem =
      let it = rev_onto [] (char_indices 0 front) in
      let start = skip_back it in
      let fits : All (Fits front) (char_indices 0 front) =
        rw nil-append at (char_indices-Fits "" front) in
      let (word_front, word, same, at_start) =
        split_at-IsBoundary start front (
          skip_back-splits front it
            (rev_onto-All (Fits front) [] (char_indices 0 front) tt fits)) in
      (
        start,
        rw (slice_front front behind) refl,
        (
          word_front,
          word,
          behind,
          ap (λ t. t <> behind) same ∙ append_assoc word_front word behind,
          at_start,
          ap len same ∙ len-append word_front word,
        ),
      )

  pub next_word_end_lem :
      (stop : ℕ) × (next_word_end (front <> behind) (len front) ≡ some stop)
      × IsSpan (len front) stop (front <> behind)
  unfolding next_word_end len Splits
  next_word_end_lem =
      let stop = skip_on (len (front <> behind)) (len front) (char_indices 0 behind) in
      let fits : All (Fits behind) (char_indices 0 behind) =
        rw nil-append at (char_indices-Fits "" behind) in
      let at_end : Splits (len front) behind (len (front <> behind)) =
        subst (Splits (len front) behind) (sym (len-append front behind))
          (Splits-end (len front) behind) in
      let (le, splits) =
        skip_on-Splits behind (len (front <> behind)) (len front) (char_indices 0 behind) at_end
          fits in
      let (word, rest, same, at_word) = split_at-IsBoundary (stop - len front) behind splits in
      (
        stop,
        rw (slice_behind front behind) refl,
        (front, word, rest, ap (λ t. front <> t) same, refl, omega (arith, at_word, le)),
      )

  pub find_at_context_lem :
      (context : Option (ℕ × String)) × (find_at_context (front <> behind) (len front)
        ≡ some context)
      × ((at_byte : ℕ) (query : String)
          → context ≡ some (at_byte, query)
          → IsSpan at_byte (len front) (front <> behind))
  unfolding find_at_context
  find_at_context_lem = elim (Option-cases (split_last_at front)) [
    | inl n ↦ (none, rw (slice_front front behind, n) refl, λ a q e. absurd (none-ne-some (a, q) e))
    | inr ((f, q), n) ↦
        let (c, same) = split_last_at_lem front f q n in
        elim (Bool-cases (has_break q)) [
          | inl b ↦ (
            none,
            rw (slice_front front behind, n, b) refl,
            λ a q e. absurd (none-ne-some (a, q) e),
          )
          | inr b ↦ (
            some (len f, q),
            rw (slice_front front behind, n, b) refl,
            λ a q' e.
                let at_f = ap (λ p. p.0) (some-injective (len f, q) (a, q') e) in
                (
                  f,
                  String.◌∷◌ c q,
                  behind,
                  ap (λ t. t <> behind) same ∙ append_assoc f (String.◌∷◌ c q) behind,
                  sym at_f,
                  ap len same ∙ len-append f (String.◌∷◌ c q),
                ),
          )
        ]
  ]
