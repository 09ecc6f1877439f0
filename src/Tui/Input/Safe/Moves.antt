-- ===== src/Tui/Input/Safe/Moves.antt =====
-- The handlers of crates/room-cli/src/tui/input.rs that move the cursor do not panic.

use Prim.Native.Nat.{min}
use room.Base.{length, ℕ, ◌+◌, ◌-◌, ◌≤◌, ◌≡◌, true, false, Option, some, arith, if◌then◌else◌, ltb}
use room.Tui.Text.{len, slice}
use room.Tui.Text.Positions.{Safe, Safe-bind, IsAt, IsAt-end, IsAt-le}
use room.Tui.Display.{
  cursor_display_pos, byte_offset_at_display_pos, prev_word_start, next_word_end,
}
use room.Tui.Display.Boundaries.{byte_offset_at_display_pos-IsBoundary}
use room.Tui.Widgets.{PickerState, up, down}
use room.Tui.Widgets.Mention.{MentionPicker, selected_user}
use room.Tui.Widgets.Mention as Mention
use room.Tui.Widgets.Choice.{ChoicePicker, selected_value}
use room.Tui.Widgets.Choice as Choice
use room.Tui.Input.{
  InputState, Env, with_cursor, with_mention, with_choice, with_palette,
  sync_mention_after_cursor_move, handle_up, handle_down, max_usize,
}
use room.Tui.Input.Keys.{
  last_index, handle_left, first_width, handle_right, handle_word_left, handle_word_right,
}
use room.Tui.Input.Valid.{IsValid}
use room.Tui.Input.Safe.{Safe-if, ready, with_palette-IsValid, sync_mention_after_cursor_move-Safe}
use room.Tui.Input.Safe.Places.{
  last_index-Safe, IsBoundary-IsAt, first_width-Safe, prev_word_start-Safe, next_word_end-Safe,
  cursor_display_pos-Safe,
}

abbrev select : ℕ → PickerState → PickerState
select n p = record p { selected = n }

choice_selected :
    (n : ℕ) (state : InputState)
    → IsValid state
    → IsValid (with_choice (Choice.on_picker (select n) state.choice) state)
choice_selected n state v = record {
  cursor = v.cursor;
  in_mention = v.in_mention;
  in_choice = v.in_choice;
  one_picker = v.one_picker;
  has_commands = v.has_commands;
}

mention_selected :
    (n : ℕ) (state : InputState)
    → IsValid state
    → IsValid (with_mention (Mention.on_picker (select n) state.mention) state)
mention_selected n state v = record {
  cursor = v.cursor;
  in_mention = v.in_mention;
  in_choice = v.in_choice;
  one_picker = v.one_picker;
  has_commands = v.has_commands;
}

pub scrolled :
    (n : ℕ) (state : InputState) → IsValid state → IsValid (record state { scroll_offset = n })
scrolled n state v = record {
  cursor = v.cursor;
  in_mention = v.in_mention;
  in_choice = v.in_choice;
  one_picker = v.one_picker;
  has_commands = v.has_commands;
}

module _ (env : Env) where
  -- The cursor moves to another boundary, which is not before an open choice.
  pub moved :
      (pos : ℕ) (state : InputState)
      → IsValid state
      → IsAt pos state.input
      → (state.choice.picker.active ≡ true → state.choice.value_start ≤ pos)
      → Safe (sync_mention_after_cursor_move env (with_cursor pos state)) IsValid
  moved pos state v h behind =
      sync_mention_after_cursor_move-Safe env (with_cursor pos state)
        (record {
          cursor = h;
          in_choice = λ on. (behind on, (v.in_choice on).1);
          has_commands = v.has_commands;
        })
        v.one_picker

  -- The cursor stays.
  pub stayed :
      (state : InputState) → IsValid state → Safe (sync_mention_after_cursor_move env state) IsValid
  stayed state v = sync_mention_after_cursor_move-Safe env state (ready state v) v.one_picker

  pub handle_left-Safe :
      (state : InputState)
      → IsValid state
      → state.choice.picker.active ≡ false
      → Safe (handle_left env state) IsValid
  unfolding handle_left
  handle_left-Safe state v off =
      Safe-if (ltb 0 state.cursor_pos) _ _ IsValid
        (λ e.
          Safe-bind (slice 0 state.cursor_pos state.input) _ _ IsValid
            (last_index-Safe state.cursor_pos state.input v.cursor (ground (arith, e)))
            (λ before at_last.
              moved (last_index before) state v at_last.1 (λ on. absurd (ground (arith, on, off)))))
        (λ e. stayed state v)

  pub handle_word_left-Safe :
      (state : InputState)
      → IsValid state
      → state.choice.picker.active ≡ false
      → Safe (handle_word_left env state) IsValid
  unfolding handle_word_left
  handle_word_left-Safe state v off =
      Safe-bind (prev_word_start state.input state.cursor_pos) _ _ IsValid
        (prev_word_start-Safe state.cursor_pos state.input v.cursor)
        (λ start at_start. moved start state v at_start.1 (λ on. absurd (ground (arith, on, off))))

  pub handle_word_right-Safe :
      (state : InputState) → IsValid state → Safe (handle_word_right env state) IsValid
  unfolding handle_word_right
  handle_word_right-Safe state v =
      Safe-bind (next_word_end state.input state.cursor_pos) _ _ IsValid
        (next_word_end-Safe state.cursor_pos state.input v.cursor)
        (λ stop at_stop.
          moved stop state v at_stop.1 (λ on. omega (arith, at_stop.0, (v.in_choice on).0)))

  pub handle_right-Safe :
      (state : InputState) → IsValid state → Safe (handle_right env state) IsValid
  unfolding handle_right
  handle_right-Safe state v =
      Safe-if (ltb state.cursor_pos (len state.input)) _ _ IsValid
        (λ e.
          Safe-bind (slice state.cursor_pos (len state.input) state.input) _ _ IsValid
            (first_width-Safe state.cursor_pos state.input v.cursor (ground (arith, e)))
            (λ after wide. Safe-bind (first_width after) _ _ IsValid wide (λ w at_w.
              moved (state.cursor_pos + w) state v at_w (λ on. omega (arith, (v.in_choice on).0)))))
        (λ e. stayed state v)

  pub to_end :
      (state : InputState)
      → IsValid state
      → Safe (sync_mention_after_cursor_move env (with_cursor (len state.input) state)) IsValid
  to_end state v =
      moved (len state.input) state v (IsAt-end state.input)
        (λ on. IsAt-le state.choice.value_start state.input (v.in_choice on).1)

  -- The cursor moves to a row and a column.
  to_position :
      (row col : ℕ) (state : InputState)
      → IsValid state
      → state.choice.picker.active ≡ false
      → Safe
          (sync_mention_after_cursor_move env (
            with_cursor
              (byte_offset_at_display_pos env.char_width state.input row col env.input_width)
              state))
          IsValid
  to_position row col state v off =
      let pos = byte_offset_at_display_pos env.char_width state.input row col env.input_width in
      moved pos state v
        (IsBoundary-IsAt pos state.input (
          byte_offset_at_display_pos-IsBoundary env.char_width row col env.input_width state.input))
        (λ on. absurd (ground (arith, on, off)))

  -- What Up and Down do at an open popup, and otherwise.
  popups :
      (choice mention palette : ℕ) (state : InputState)
      → (rest : Option InputState) → IsValid state
      → (state.choice.picker.active ≡ false → Safe rest IsValid)
      → Safe
          (if state.choice.picker.active
            then some (with_choice (Choice.on_picker (select choice) state.choice) state)
            else if state.mention.picker.active
            then some (with_mention (Mention.on_picker (select mention) state.mention) state)
            else if state.palette.active
            then some (with_palette (record state.palette { selected = palette }) state)
            else rest)
          IsValid
  popups choice mention palette state rest v h =
      Safe-if state.choice.picker.active _ _ IsValid (λ on. choice_selected choice state v)
        (λ off.
          Safe-if state.mention.picker.active _ _ IsValid (λ on. mention_selected mention state v)
            (λ e.
              Safe-if state.palette.active _ rest IsValid
                (λ on.
                  with_palette-IsValid (record state.palette { selected = palette }) state v
                    v.has_commands)
                (λ e'. h off)))

  pub handle_up-Safe : (state : InputState) → IsValid state → Safe (handle_up env state) IsValid
  unfolding handle_up
  handle_up-Safe state v =
      popups (up state.choice.picker.selected) (up state.mention.picker.selected)
        (up state.palette.selected) state _ v
        (λ off.
          Safe-bind (cursor_display_pos env.char_width state.input state.cursor_pos env.input_width)
            _ _ IsValid
            (cursor_display_pos-Safe env.char_width state.cursor_pos env.input_width state.input
              v.cursor)
            (λ (row, col) t.
              Safe-if (ltb 0 row) _ _ IsValid (λ e. to_position (row - 1) col state v off)
                (λ e. scrolled (min (state.scroll_offset + 1) max_usize) state v)))

  pub handle_down-Safe : (state : InputState) → IsValid state → Safe (handle_down env state) IsValid
  unfolding handle_down
  handle_down-Safe state v =
      popups (down (length state.choice.picker.filtered) state.choice.picker.selected)
        (down (length state.mention.picker.filtered) state.mention.picker.selected)
        (down (length state.palette.filtered) state.palette.selected) state _ v
        (λ off.
          let shown = λ (pos : ℕ) (h : IsAt pos state.input).
            cursor_display_pos-Safe env.char_width pos env.input_width state.input h in
          Safe-bind (cursor_display_pos env.char_width state.input state.cursor_pos env.input_width)
            _ _ IsValid (shown state.cursor_pos v.cursor)
            (λ (row, col) t.
              Safe-bind
                (cursor_display_pos env.char_width state.input (len state.input) env.input_width) _
                _ IsValid (shown (len state.input) (IsAt-end state.input))
                (λ (last_row, last_col) t'.
                  Safe-if (ltb row last_row) _ _ IsValid
                    (λ e. to_position (row + 1) col state v off)
                    (λ e.
                      Safe-if (ltb state.cursor_pos (len state.input)) _ _ IsValid
                        (λ e'. to_end state v)
                        (λ e'. scrolled (state.scroll_offset - 1) state v)))))
