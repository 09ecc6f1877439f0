-- ===== src/Tui/Widgets/Palette.antt =====
-- `CommandPalette` of crates/room-cli/src/tui/widgets.rs.
use room.Base.{
  ℕ, ◌+◌, String, Bool, true, false, not, ◌&&◌, Option, none, some, List, [], ◌∷◌, ◌++◌, map,
  if◌then◌else◌, ◌==◌, find, length, get_elem?,
}
use room.Protocol.Schema.{
  ParamType, username, choice, ParamSchema, CommandInfo, name_of, description_of, usage_of,
  params_of,
}
use room.Tui.Widgets.{codes, lower_codes, is_prefix, is_infix, clamp, up, down}

pub record PaletteItem : Type 0 where
  pub cmd : String
  pub usage : String
  pub description : String
  pub params : List ParamSchema

pub record CommandPalette : Type 0 where
  pub active : Bool
  pub selected : ℕ
  pub filtered : List ℕ
  pub commands : List PaletteItem

-- `(i..i + commands.len()).collect()`
unfoldable pub indices : ℕ → List PaletteItem → List ℕ
indices i [] = []
indices i (c ∷ cs) = i ∷ indices (i + 1) cs

abbrev pub item_of : CommandInfo → PaletteItem
item_of c = record {
  cmd = name_of c;
  usage = usage_of c;
  description = description_of c;
  params = params_of c;
}

-- The loop of `update_filter`: the indices of the items that pass.
unfoldable pub matching : (PaletteItem → Bool) → ℕ → List PaletteItem → List ℕ
matching p i [] = []
matching p i (c ∷ cs) = let rest = matching p (i + 1) cs in if p c then i ∷ rest else rest

unfoldable pub from_commands : List CommandInfo → CommandPalette
unfolding indices
from_commands infos =
    let commands = map item_of infos in
    record { active = false; selected = 0; filtered = indices 0 commands; commands = commands }

unfoldable pub activate : CommandPalette → CommandPalette
unfolding indices
activate p = record p { active = true; selected = 0; filtered = indices 0 p.commands }

abbrev pub deactivate : CommandPalette → CommandPalette
deactivate p = record p { active = false }

unfoldable pub update_filter : String → CommandPalette → CommandPalette
unfolding matching is_prefix is_infix codes clamp
update_filter query p =
    let q = lower_codes query in
    let by_name = λ (c : PaletteItem). is_prefix q (codes c.cmd) in
    let by_description =
      λ (c : PaletteItem). not (by_name c) && is_infix q (lower_codes c.description) in
    let filtered = matching by_name 0 p.commands ++ matching by_description 0 p.commands in
    record p { filtered = filtered; selected = clamp (length filtered) p.selected }

abbrev pub move_up : CommandPalette → CommandPalette
move_up p = record p { selected = up p.selected }

abbrev pub move_down : CommandPalette → CommandPalette
move_down p = record p { selected = down (length p.filtered) p.selected }

-- The parameter at a position of a command.
unfoldable pub param_at : String → ℕ → CommandPalette → Option ParamSchema
param_at cmd_name arg_pos p = elim (find (λ c. c.cmd == cmd_name) p.commands) [
  | none ↦ none
  | some c ↦ get_elem? c.params arg_pos
]

unfoldable pub choices_of : ParamType → List String
choices_of (choice values) = values
choices_of _ = []

unfoldable pub is_username : ParamType → Bool
is_username username = true
is_username _ = false

unfoldable pub completions_at : String → ℕ → CommandPalette → List String
unfolding param_at choices_of
completions_at cmd_name arg_pos p = elim (param_at cmd_name arg_pos p) [
  | none ↦ []
  | some s ↦ choices_of s.param_type
]

unfoldable pub is_username_param : String → ℕ → CommandPalette → Bool
unfolding param_at is_username
is_username_param cmd_name arg_pos p = elim (param_at cmd_name arg_pos p) [
  | none ↦ false
  | some s ↦ is_username s.param_type
]

unfoldable pub is_param_required : String → ℕ → CommandPalette → Bool
unfolding param_at
is_param_required cmd_name arg_pos p = elim (param_at cmd_name arg_pos p) [
  | none ↦ false
  | some s ↦ s.required
]
