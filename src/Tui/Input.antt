-- ===== src/Tui/Input.antt =====
-- crates/room-cli/src/tui/input.rs: the state of the input box and what each key does. A result of
-- `none` is a panic.
pub mod Keys
pub mod Valid
pub mod Safe
use Prim.Native.Char.{Char, code}
use Prim.Native.Nat.{min}
use room.Base.{
  ℕ, ◌+◌, ◌-◌, ◌^◌, String, ◌<>◌, Bool, true, false, not, ◌&&◌, ◌||◌, Option, none, some, List, [],
  ◌∷◌, if◌then◌else◌, ltb, leb, nat_eq, ◌==◌, get_elem?, is_empty, is_some,
}
use room.Base.Text.{strip_prefix, is_empty_text}
use room.Tui.Text.{◌>>=◌, len_utf8, len, slice, remove, insert_str, replace_range}
use room.Tui.Display.{
  cursor_display_pos, byte_offset_at_display_pos, find_at_context, prev_word_start, next_word_end,
  char_indices, rev_onto,
}
use room.Tui.Widgets
use room.Tui.Widgets.Palette.{CommandPalette, completions_at, is_param_required, is_username_param}
use room.Tui.Widgets.Palette as Palette
use room.Tui.Widgets.Mention.{MentionPicker, selected_user}
use room.Tui.Widgets.Mention as Mention
use room.Tui.Widgets.Choice.{ChoicePicker, selected_value}
use room.Tui.Widgets.Choice as Choice
use room.Tui.Parse.{
  Action, send, quit, next_tab, prev_tab, switch_tab, Payload, apply_backslash_enter,
  parse_dm_input, build_payload,
}

pub record InputState : Type 0 where
  pub input : String
  pub cursor_pos : ℕ
  pub input_row_scroll : ℕ
  pub scroll_offset : ℕ
  pub palette : CommandPalette
  pub mention : MentionPicker
  pub choice : ChoicePicker

-- `commands` are all known commands.
unfoldable pub new : CommandPalette → InputState
new commands = record {
  input = "";
  cursor_pos = 0;
  input_row_scroll = 0;
  scroll_offset = 0;
  palette = commands;
  mention = Mention.new;
  choice = Choice.new;
}

-- The arguments of a key's handler, the widths of characters, and `serde_json` for payloads.
pub record Env : Type 0 where
  pub char_width : ℕ → ℕ
  pub to_json : Payload → String
  pub online_users : List String
  pub daemon_users : List String
  pub visible_count : ℕ
  pub input_width : ℕ

abbrev pub max_usize : ℕ
max_usize = 2 ^ 64 - 1

abbrev pub with_input : String → ℕ → InputState → InputState
with_input input cursor_pos state = record state { input = input; cursor_pos = cursor_pos }

-- A new input, shown from its first row.
abbrev pub with_new_input : String → ℕ → InputState → InputState
with_new_input input cursor_pos state = record state {
  input = input;
  cursor_pos = cursor_pos;
  input_row_scroll = 0;
}

abbrev pub with_cursor : ℕ → InputState → InputState
with_cursor cursor_pos state = record state { cursor_pos = cursor_pos }

abbrev pub with_mention : MentionPicker → InputState → InputState
with_mention mention state = record state { mention = mention }

abbrev pub with_choice : ChoicePicker → InputState → InputState
with_choice choice state = record state { choice = choice }

abbrev pub with_palette : CommandPalette → InputState → InputState
with_palette palette state = record state { palette = palette }

abbrev pub close_mention : InputState → InputState
close_mention state = with_mention (Mention.on_picker Widgets.deactivate state.mention) state

abbrev pub close_choice : InputState → InputState
close_choice state = with_choice (Choice.on_picker Widgets.deactivate state.choice) state

abbrev pub close_palette : InputState → InputState
close_palette state = with_palette (Palette.deactivate state.palette) state

-- `if filtered.is_empty() { deactivate() }`
abbrev pub mention_unless_empty : MentionPicker → MentionPicker
mention_unless_empty m =
    if is_empty m.picker.filtered then Mention.on_picker Widgets.deactivate m else m

abbrev pub choice_unless_empty : ChoicePicker → ChoicePicker
choice_unless_empty c =
    if is_empty c.picker.filtered then Choice.on_picker Widgets.deactivate c else c

module _ (env : Env) where
  unfoldable pub sync_mention_after_cursor_move : InputState → Option InputState
  unfolding find_at_context
  sync_mention_after_cursor_move state =
      if not state.mention.picker.active
      then some state
      else (find_at_context state.input state.cursor_pos >>= λ context. elim context [
        | none ↦ some (close_mention state)
        | some (at_byte, query) ↦
            let m =
              Mention.update_filter env.online_users env.daemon_users query
                (record state.mention { at_byte = at_byte }) in
            some (with_mention (mention_unless_empty m) state)
      ])

  unfoldable pub sync_mention_after_delete : InputState → Option InputState
  unfolding find_at_context
  sync_mention_after_delete state = find_at_context state.input state.cursor_pos >>= λ context.
      elim context [
        | none ↦ some (close_mention state)
        | some (at_byte, query) ↦
            let m =
              if state.mention.picker.active
              then Mention.update_filter env.online_users env.daemon_users query
                  (record state.mention { at_byte = at_byte })
              else Mention.activate at_byte env.online_users env.daemon_users query state.mention in
            some (with_mention (mention_unless_empty m) state)
      ]

unfoldable pub sync_palette_after_delete : InputState → InputState
unfolding strip_prefix
sync_palette_after_delete state =
    if is_empty_text state.input then close_palette state else elim (strip_prefix "/" state.input) [
      | none ↦ close_palette state
      | some query ↦
          let p = Palette.update_filter query state.palette in
          if is_empty p.filtered
          then with_palette (Palette.deactivate p) state
          else if p.active
          then with_palette p state
          else with_palette (record p { active = true; selected = 0 }) state
    ]

unfoldable pub handle_esc : InputState → InputState
handle_esc state =
    if state.choice.picker.active
    then close_choice state
    else if state.mention.picker.active
    then close_mention state
    else if state.palette.active
    then close_palette state
    else if is_empty_text state.input
    then state
    else with_new_input "" 0 state

-- Also the first branch of `handle_enter`.
unfoldable pub handle_tab_choice : InputState → Option InputState
unfolding replace_range
handle_tab_choice state = elim (selected_value state.choice) [
  | none ↦ some (close_choice state)
  | some value ↦
      let start = state.choice.value_start in
      replace_range start state.cursor_pos value state.input >>= λ input.
      some (close_choice (with_new_input input (start + len value) state))
]

-- Also the second branch of `handle_enter`.
unfoldable pub handle_tab_mention : InputState → Option InputState
unfolding replace_range
handle_tab_mention state = elim (selected_user state.mention) [
  | none ↦ some (close_mention state)
  | some user ↦
      let replacement = "@" <> (user <> " ") in
      let at_start = state.mention.at_byte in
      replace_range at_start state.cursor_pos replacement state.input >>= λ input.
      some (close_mention (with_new_input input (at_start + len replacement) state))
]

module _ (env : Env) where
  -- The three ways to complete the command `cmd_name`.
  unfoldable pub complete_command : String → InputState → InputState
  complete_command cmd_name state =
      let palette = state.palette in
      let required = is_param_required cmd_name 0 palette in
      let choices = completions_at cmd_name 0 palette in
      let prefix = "/" <> (cmd_name <> " ") in
      let filled = close_palette (with_new_input prefix (len prefix) state) in
      if is_username_param cmd_name 0 palette && required
      then with_mention
          (mention_unless_empty
            (Mention.activate (len prefix) env.online_users env.daemon_users "" state.mention))
          filled
      else if not (is_empty choices) && required
      then with_choice
          (choice_unless_empty (Choice.activate cmd_name choices (len prefix) "" state.choice))
          filled
      else close_palette (with_new_input ("/" <> cmd_name) (len ("/" <> cmd_name)) state)

  unfoldable pub complete_palette_selection : InputState → Option InputState
  unfolding complete_command
  complete_palette_selection state =
      elim (get_elem? state.palette.filtered state.palette.selected) [
        | none ↦ some (close_palette state)
        | some idx ↦
            get_elem? state.palette.commands idx >>= λ item. some (complete_command item.cmd state)
      ]

  -- The input after it was sent.
  abbrev pub cleared : InputState → InputState
  cleared state = record state {
    input = "";
    cursor_pos = 0;
    input_row_scroll = 0;
    scroll_offset = 0;
  }

  -- Enter where no popup is open and Shift is not held.
  unfoldable pub submit : InputState → Option (Option Action × InputState)
  submit state = apply_backslash_enter state.input state.cursor_pos >>= λ newline. elim newline [
    | some (input, new_pos) ↦ some (none, with_input input new_pos state)
    | none ↦
        if is_empty_text state.input
        then some (none, state)
        else elim (parse_dm_input state.input) [
          | some dm ↦ some (some dm, cleared state)
          | none ↦ some (some (send (build_payload env.to_json state.input)), cleared state)
        ]
  ]

  unfoldable pub handle_enter : Bool → InputState → Option (Option Action × InputState)
  unfolding complete_palette_selection submit
  handle_enter shift state =
      if state.choice.picker.active
      then (handle_tab_choice state >>= λ s. some (none, s))
      else if state.mention.picker.active
      then (handle_tab_mention state >>= λ s. some (none, s))
      else if state.palette.active
      then (complete_palette_selection state >>= λ s.
          if not s.mention.picker.active
            && not s.choice.picker.active
            && not (is_empty_text s.input)
          then some (some (send (build_payload env.to_json s.input)), cleared s)
          else some (none, s))
      else if shift
      then (insert_str state.cursor_pos "\n" state.input >>= λ input.
          some (none, with_input input (state.cursor_pos + 1) state))
      else submit state

  unfoldable pub handle_up : InputState → Option InputState
  unfolding sync_mention_after_cursor_move
  handle_up state =
      if state.choice.picker.active
      then some (with_choice (Choice.on_picker Widgets.move_up state.choice) state)
      else if state.mention.picker.active
      then some (with_mention (Mention.on_picker Widgets.move_up state.mention) state)
      else if state.palette.active
      then some (with_palette (Palette.move_up state.palette) state)
      else (cursor_display_pos env.char_width state.input state.cursor_pos env.input_width
          >>= λ (cur_row, cur_col).
              if ltb 0 cur_row
              then sync_mention_after_cursor_move env (
                  with_cursor
                    (byte_offset_at_display_pos env.char_width state.input (cur_row - 1) cur_col
                      env.input_width)
                    state)
              else some (record state { scroll_offset = min (state.scroll_offset + 1) max_usize }))

  unfoldable pub handle_down : InputState → Option InputState
  unfolding sync_mention_after_cursor_move
  handle_down state =
      if state.choice.picker.active
      then some (with_choice (Choice.on_picker Widgets.move_down state.choice) state)
      else if state.mention.picker.active
      then some (with_mention (Mention.on_picker Widgets.move_down state.mention) state)
      else if state.palette.active
      then some (with_palette (Palette.move_down state.palette) state)
      else (cursor_display_pos env.char_width state.input state.cursor_pos env.input_width
          >>= λ (cur_row, cur_col).
              cursor_display_pos env.char_width state.input (len state.input) env.input_width
              >>= λ (last_row, last_col).
                  if ltb cur_row last_row
                  then sync_mention_after_cursor_move env (
                      with_cursor
                        (byte_offset_at_display_pos env.char_width state.input (cur_row + 1) cur_col
                          env.input_width)
                        state)
                  else if ltb state.cursor_pos (len state.input)
                  then sync_mention_after_cursor_move env (with_cursor (len state.input) state)
                  else some (record state { scroll_offset = state.scroll_offset - 1 }))
