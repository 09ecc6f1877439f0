-- ===== src/Tui/Input/Valid.antt =====
-- The invariant of the input state, and the parts of `handle_key` that keep it.

use room.Base.{
  ℕ, zero, suc, ◌+◌, ◌≤◌, ◌<◌, String, ◌<>◌, ◌≡◌, refl, Bool, true, false, some, List, [], ◌∷◌,
  arith, is_some, get_elem?, All, All-append, Bool-cases, inl, inr, length,
}
use room.Tui.Text.{split_at-IsBoundary}
use room.Tui.Text.Positions.{Safe, IsAt, IsAt-len}
use room.Tui.Display.{find_at_context}
use room.Tui.Display.Boundaries.{find_at_context_lem}
use room.Protocol.Schema.{CommandInfo}
use room.Tui.Widgets.Palette.{CommandPalette, PaletteItem, indices, matching}
use room.Tui.Widgets.Palette as Palette
use room.Tui.Input.{InputState}

-- A popup that is open began at a boundary that is not behind the cursor.
abbrev pub Opened : Bool → ℕ → ℕ → String → Type 0
Opened active start cursor_pos input = active ≡ true → (start ≤ cursor_pos) × IsAt start input

-- The indices of the palette are those of commands.
abbrev pub HasCommands : CommandPalette → Type 0
HasCommands p = All (λ i. is_some (get_elem? p.commands i) ≡ true) p.filtered

-- The cursor is between two characters or at an end, and one picker at most is open.
pub record IsValid (state : InputState) : Type 0 where
  pub cursor : IsAt state.cursor_pos state.input
  pub in_mention :
      Opened state.mention.picker.active state.mention.at_byte state.cursor_pos state.input
  pub in_choice :
      Opened state.choice.picker.active state.choice.value_start state.cursor_pos state.input
  pub one_picker : state.choice.picker.active ≡ true → state.mention.picker.active ≡ false
  pub has_commands : HasCommands state.palette

-- The context that is found begins at a boundary in front of the cursor.
pub find_at_context-Safe :
    (input : String) (cursor_pos : ℕ)
    → IsAt cursor_pos input
    → Safe (find_at_context input cursor_pos) (λ context.
      (at_byte : ℕ) (query : String)
      → context ≡ some (at_byte, query)
      → (at_byte ≤ cursor_pos) × IsAt at_byte input)
find_at_context-Safe input cursor_pos h =
    let (f, b, same, at_f) = split_at-IsBoundary cursor_pos input h in
    let (context, found, spans) = find_at_context_lem f b in
    rw (same, at_f, found)
      (λ at_byte query e.
        let (g, m, r, parts, at_g, at_m) = spans at_byte query e in
        (omega (arith, at_g, at_m), rw (parts, at_g) (IsAt-len g (m <> r))))

-- The palette keeps its commands and points to them.
indices-All :
    (i : ℕ) (rest : List PaletteItem)
    → (P : ℕ → Type 0) → ((k : ℕ) → k < i + length rest → P k)
    → All P (indices i rest)
unfolding indices
indices-All i [] P h = tt
indices-All i (c ∷ rest) P h =
    (h i (omega arith), indices-All (i + 1) rest P (λ k lt. h k (omega arith)))

matching-All :
    (p : PaletteItem → Bool) (i : ℕ) (rest : List PaletteItem) (P : ℕ → Type 0)
    → ((k : ℕ) → k < i + length rest → P k)
    → All P (matching p i rest)
unfolding matching
matching-All p i [] P h = tt
matching-All p i (c ∷ rest) P h = elim (Bool-cases (p c)) [
  | inl e ↦
      rw (matching, e)
        (h i (omega arith), matching-All p (i + 1) rest P (λ k lt. h k (omega arith)))
  | inr e ↦ rw (matching, e) (matching-All p (i + 1) rest P (λ k lt. h k (omega arith)))
]

get_elem?-in_range :
    {A : Type 0} (xs : List A) (k : ℕ) → k < length xs → is_some (get_elem? xs k) ≡ true
get_elem?-in_range [] k lt = absurd (omega arith)
get_elem?-in_range (x ∷ xs) zero lt = refl
get_elem?-in_range (x ∷ xs) (suc k) lt = get_elem?-in_range xs k (omega arith)

pub from_commands-HasCommands :
    (infos : List CommandInfo) → HasCommands (Palette.from_commands infos)
unfolding Palette.from_commands
from_commands-HasCommands infos =
    let p = Palette.from_commands infos in
    indices-All 0 p.commands (λ i. is_some (get_elem? p.commands i) ≡ true)
      (λ k lt. get_elem?-in_range p.commands k (omega (arith, lt)))

pub activate-HasCommands : (p : CommandPalette) → HasCommands (Palette.activate p)
unfolding Palette.activate
activate-HasCommands p =
    indices-All 0 p.commands (λ i. is_some (get_elem? p.commands i) ≡ true)
      (λ k lt. get_elem?-in_range p.commands k (omega (arith, lt)))

pub update_filter-HasCommands :
    (query : String) (p : CommandPalette) → HasCommands (Palette.update_filter query p)
unfolding Palette.update_filter
update_filter-HasCommands query p =
    let P = λ (i : ℕ). is_some (get_elem? p.commands i) ≡ true in
    let known = λ (k : ℕ) (lt : k < 0 + length p.commands).
      get_elem?-in_range p.commands k (omega (arith, lt)) in
    All-append P _ _ (matching-All _ 0 p.commands P known) (matching-All _ 0 p.commands P known)
