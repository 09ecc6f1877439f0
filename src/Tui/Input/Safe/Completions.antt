-- ===== src/Tui/Input/Safe/Completions.antt =====
-- Tab and Enter of crates/room-cli/src/tui/input.rs do not panic.

use room.Base.{
  ℕ, ◌+◌, ◌≤◌, String, ◌<>◌, ◌≡◌, refl, true, false, not, ◌&&◌, some, arith, is_some, is_empty,
  All-get_elem?, get_elem?,
}
use room.Tui.Text.{◌>>=◌, len, replace_range}
use room.Tui.Text.Positions.{Safe, Safe-bind, IsAt, IsAt-end, replace_range-Safe}
use room.Tui.Widgets.Mention.{MentionPicker, selected_user}
use room.Tui.Widgets.Mention as Mention
use room.Tui.Widgets.Choice.{ChoicePicker, selected_value}
use room.Tui.Widgets.Choice as Choice
use room.Tui.Widgets.Palette.{CommandPalette, completions_at, is_param_required, is_username_param}
use room.Tui.Widgets.Palette as Palette
use room.Tui.Input.{
  InputState, Env, with_new_input, close_mention, close_choice, close_palette, handle_tab_choice,
  handle_tab_mention, complete_command, complete_palette_selection,
}
use room.Tui.Input.Keys.{handle_tab}
use room.Tui.Input.Valid.{IsValid}
use room.Tui.Input.Safe.{
  Safe-if, Safe-Option, Safe-map, is_some-Safe, Holds-if, ready, none_open, mentioned, chosen,
  with_palette-IsValid,
}

replaced :
    (start : ℕ) (value : String) (state : InputState)
    → IsValid state
    → (start ≤ state.cursor_pos) × IsAt start state.input
    → Safe
        (replace_range start state.cursor_pos value state.input)
        (λ input. IsAt (start + len value) input)
replaced start value state v (le, at_start) =
    let edit = replace_range start state.cursor_pos value state.input in
    Safe-map edit _ _
      (replace_range-Safe start state.cursor_pos value state.input le at_start v.cursor)
      (λ input h. h.0)

pub handle_tab_choice-Safe :
    (state : InputState)
    → IsValid state
    → state.choice.picker.active ≡ true
    → Safe (handle_tab_choice state) IsValid
unfolding handle_tab_choice
handle_tab_choice-Safe state v on =
    Safe-Option (selected_value state.choice) _ _ IsValid
      (λ n. none_open (close_choice state) v.cursor (v.one_picker on) refl v.has_commands)
      (λ value e.
        let start = state.choice.value_start in
        Safe-bind (replace_range start state.cursor_pos value state.input) _ _ IsValid
          (replaced start value state v (v.in_choice on))
          (λ input at_end.
            none_open (close_choice (with_new_input input (start + len value) state)) at_end
              (v.one_picker on) refl v.has_commands))

pub handle_tab_mention-Safe :
    (state : InputState)
    → IsValid state
    → state.mention.picker.active ≡ true
    → state.choice.picker.active ≡ false
    → Safe (handle_tab_mention state) IsValid
unfolding handle_tab_mention
handle_tab_mention-Safe state v on off =
    Safe-Option (selected_user state.mention) _ _ IsValid
      (λ n. none_open (close_mention state) v.cursor refl off v.has_commands)
      (λ user e.
        let replacement = "@" <> (user <> " ") in
        let start = state.mention.at_byte in
        Safe-bind (replace_range start state.cursor_pos replacement state.input) _ _ IsValid
          (replaced start replacement state v (v.in_mention on))
          (λ input at_end.
            none_open (close_mention (with_new_input input (start + len replacement) state)) at_end
              refl off v.has_commands))

module _ (env : Env) where
  complete_command-IsValid :
      (cmd_name : String) (state : InputState)
      → IsValid state
      → state.mention.picker.active ≡ false
      → state.choice.picker.active ≡ false
      → IsValid (complete_command env cmd_name state)
  unfolding complete_command Mention.activate Mention.update_filter Choice.activate
      Choice.update_filter
  complete_command-IsValid cmd_name state v no_mention no_choice =
      let palette = state.palette in
      let prefix = "/" <> (cmd_name <> " ") in
      let filled = close_palette (with_new_input prefix (len prefix) state) in
      let v' : IsValid filled =
        none_open filled (IsAt-end prefix) no_mention no_choice v.has_commands in
      let here : (len prefix ≤ len prefix) × IsAt (len prefix) prefix =
        (omega arith, IsAt-end prefix) in
      Holds-if (is_username_param cmd_name 0 palette && is_param_required cmd_name 0 palette) _ _
        IsValid
        (λ e.
          mentioned
            (Mention.activate (len prefix) env.online_users env.daemon_users "" state.mention)
            filled (ready filled v') no_choice here)
        (λ e.
          Holds-if
            (not (is_empty (completions_at cmd_name 0 palette))
              && is_param_required cmd_name 0 palette)
            _ _ IsValid
            (λ e'.
              chosen
                (Choice.activate cmd_name (completions_at cmd_name 0 palette) (len prefix) ""
                  state.choice)
                filled v' no_mention here)
            (λ e'.
              none_open
                (close_palette (with_new_input ("/" <> cmd_name) (len ("/" <> cmd_name)) state))
                (IsAt-end ("/" <> cmd_name)) no_mention no_choice v.has_commands))

  pub complete_palette_selection-Safe :
      (state : InputState)
      → IsValid state
      → state.mention.picker.active ≡ false
      → state.choice.picker.active ≡ false
      → Safe (complete_palette_selection env state) IsValid
  unfolding complete_palette_selection
  complete_palette_selection-Safe state v no_mention no_choice =
      let command = λ (idx : ℕ). get_elem? state.palette.commands idx >>= λ item.
      some (complete_command env item.cmd state) in
      let known = λ (i : ℕ). is_some (get_elem? state.palette.commands i) ≡ true in
      let completed : (idx : ℕ)
          → get_elem? state.palette.filtered state.palette.selected ≡ some idx
          → Safe (command idx) IsValid =
        λ idx found.
          Safe-bind (get_elem? state.palette.commands idx) _ (λ item. Unit {0}) IsValid
            (is_some-Safe (get_elem? state.palette.commands idx) (
              All-get_elem? known state.palette.filtered state.palette.selected idx v.has_commands
                found))
            (λ item t. complete_command-IsValid item.cmd state v no_mention no_choice) in
      Safe-Option (get_elem? state.palette.filtered state.palette.selected)
        (some (close_palette state)) command IsValid
        (λ n. with_palette-IsValid (Palette.deactivate state.palette) state v v.has_commands)
        completed

  pub handle_tab-Safe : (state : InputState) → IsValid state → Safe (handle_tab env state) IsValid
  unfolding handle_tab
  handle_tab-Safe state v =
      Safe-if state.choice.picker.active _ _ IsValid (λ on. handle_tab_choice-Safe state v on)
        (λ no_choice.
          Safe-if state.mention.picker.active _ _ IsValid
            (λ on. handle_tab_mention-Safe state v on no_choice)
            (λ no_mention.
              Safe-if state.palette.active _ _ IsValid
                (λ on. complete_palette_selection-Safe state v no_mention no_choice) (λ off. v)))
