-- ===== src/Tui/Widgets/Choice.antt =====
-- `ChoicePicker` of crates/room-cli/src/tui/widgets.rs.
use room.Base.{ℕ, String, true, false, Option, List, []}
use room.Tui.Widgets.{PickerState, filter_prefix, selected_item}

pub record ChoicePicker : Type 0 where
  pub picker : PickerState
  pub all_choices : List String
  pub cmd_name : String
  pub value_start : ℕ

abbrev pub new : ChoicePicker
new = record {
  picker = record { active = false; selected = 0; filtered = [] };
  all_choices = [];
  cmd_name = "";
  value_start = 0;
}

unfoldable pub update_filter : String → ChoicePicker → ChoicePicker
unfolding filter_prefix
update_filter query c = record c { picker = filter_prefix c.all_choices query c.picker }

unfoldable pub activate : String → List String → ℕ → String → ChoicePicker → ChoicePicker
unfolding update_filter
activate cmd_name choices value_start query c = update_filter query (record c {
  picker = record c.picker { active = true; selected = 0 };
  all_choices = choices;
  cmd_name = cmd_name;
  value_start = value_start;
})

unfoldable pub selected_value : ChoicePicker → Option String
unfolding selected_item
selected_value c = selected_item c.picker

abbrev pub on_picker : (PickerState → PickerState) → ChoicePicker → ChoicePicker
on_picker f c = record c { picker = f c.picker }
