-- ===== src/Tui/Widgets.antt =====
-- crates/room-cli/src/tui/widgets.rs: what the command palette and the two pickers share.
pub mod Palette
pub mod Mention
pub mod Choice
use Prim.Native.Char.{code}
use room.Base.{
  ℕ, suc, ◌+◌, ◌-◌, String, Bool, true, false, ◌&&◌, ◌||◌, not, Option, none, some, List, [], ◌∷◌,
  ◌++◌, map, if◌then◌else◌, leb, nat_eq, ◌==◌, keep, any, find, length, get_elem?, is_empty,
}

-- `to_ascii_lowercase`, as the code points of the text
unfoldable pub to_lower : ℕ → ℕ
to_lower c = if leb b'A' c && leb c b'Z' then c + 32 else c

unfoldable pub codes : String → List ℕ
codes String.[] = []
codes (String.◌∷◌ c s) = code c ∷ codes s

abbrev pub lower_codes : String → List ℕ
lower_codes s = map to_lower (codes s)

-- `s.starts_with(p)`, with `p` first
unfoldable pub is_prefix : List ℕ → List ℕ → Bool
is_prefix [] s = true
is_prefix (p ∷ ps) [] = false
is_prefix (p ∷ ps) (c ∷ s) = nat_eq p c && is_prefix ps s

-- `s.contains(p)`, with `p` first
unfoldable pub is_infix : List ℕ → List ℕ → Bool
unfolding is_prefix
is_infix p [] = is_prefix p []
is_infix p (c ∷ s) = is_prefix p (c ∷ s) || is_infix p s

-- `min(selected, n - 1)`, or 0 where there is nothing to select
unfoldable pub clamp : ℕ → ℕ → ℕ
clamp n selected = if leb n selected then n - 1 else selected

-- `move_up` and `move_down` of the palette and of the pickers, on `n` items
unfoldable pub up : ℕ → ℕ
up selected = selected - 1

unfoldable pub down : ℕ → ℕ → ℕ
down n selected =
    if nat_eq n 0 then selected else if leb (selected + 1) (n - 1) then selected + 1 else n - 1

pub record PickerState : Type 0 where
  pub active : Bool
  pub selected : ℕ
  pub filtered : List String

abbrev pub deactivate : PickerState → PickerState
deactivate p = record p { active = false }

abbrev pub move_up : PickerState → PickerState
move_up p = record p { selected = up p.selected }

abbrev pub move_down : PickerState → PickerState
move_down p = record p { selected = down (length p.filtered) p.selected }

unfoldable pub selected_item : PickerState → Option String
selected_item p = get_elem? p.filtered p.selected

-- The candidates whose lowercase form starts with the query's.
unfoldable pub starting_with : String → List String → List String
unfolding is_prefix codes
starting_with query = keep (λ c. is_prefix (lower_codes query) (lower_codes c))

-- With the list replaced and `selected` clamped.
unfoldable pub with_filtered : List String → PickerState → PickerState
unfolding clamp
with_filtered filtered p = record p {
  filtered = filtered;
  selected = clamp (length filtered) p.selected;
}

unfoldable pub filter_prefix : List String → String → PickerState → PickerState
unfolding starting_with with_filtered
filter_prefix candidates query = with_filtered (starting_with query candidates)
