-- ===== src/Tui/Input/Keys.antt =====
-- The handlers of crates/room-cli/src/tui/input.rs that edit the input or move the cursor, and
-- `handle_key`.
use Prim.Native.Char.{Char, code}
use Prim.Native.Nat.{min}
use room.Base.{
  ℕ, ◌+◌, ◌-◌, String, Bool, ◌&&◌, ◌||◌, Option, none, some, [], ◌∷◌, if◌then◌else◌, ltb, leb,
  nat_eq, ◌==◌, is_empty,
}
use room.Base.Text.{strip_prefix}
use room.Tui.Text.{◌>>=◌, len_utf8, len, slice, remove, insert_str, replace_range}
use room.Tui.Display.{find_at_context, prev_word_start, next_word_end, char_indices, rev_onto}
use room.Tui.Widgets.Palette as Palette
use room.Tui.Widgets.Mention as Mention
use room.Tui.Widgets.Choice as Choice
use room.Tui.Parse.{Action, quit, next_tab, prev_tab, switch_tab}
use room.Tui.Input.{
  InputState, Env, with_input, with_cursor, with_mention, with_choice, with_palette, close_mention,
  close_choice, close_palette, mention_unless_empty, choice_unless_empty,
  sync_mention_after_cursor_move, sync_mention_after_delete, sync_palette_after_delete, handle_esc,
  handle_tab_choice, handle_tab_mention, complete_palette_selection, handle_enter, handle_up,
  handle_down, max_usize,
}

-- `char_indices().next_back().map(|(i, _)| i).unwrap_or(0)`
unfoldable pub last_index : String → ℕ
unfolding char_indices rev_onto
last_index s = elim (rev_onto [] (char_indices 0 s)) [ [] ↦ 0 | (i, c) ∷ it ↦ i ]

-- What follows an edit while the choice picker is open: the text behind `value_start` is its query.
unfoldable pub refilter_choice : InputState → Option InputState
unfolding slice
refilter_choice state = slice state.choice.value_start state.cursor_pos state.input >>= λ query.
    some (with_choice (choice_unless_empty (Choice.update_filter query state.choice)) state)

-- The width of the first character; a text without one is the panic of `unwrap`.
unfoldable pub first_width : String → Option ℕ
first_width String.[] = none
first_width (String.◌∷◌ c s) = some (len_utf8 (code c))

-- The palette after a character was typed.
unfoldable pub palette_after_char : Char → InputState → InputState
unfolding strip_prefix
palette_after_char c state =
    if nat_eq (code c) b'/' && state.input == "/"
    then with_palette (Palette.activate state.palette) state
    else if state.palette.active
    then elim (strip_prefix "/" state.input) [
      | none ↦ close_palette state
      | some query ↦
          let p = Palette.update_filter query state.palette in
          with_palette (if is_empty p.filtered then Palette.deactivate p else p) state
    ]
    else state

module _ (env : Env) where
  unfoldable pub handle_word_delete : InputState → Option InputState
  unfolding prev_word_start replace_range
  handle_word_delete state = prev_word_start state.input state.cursor_pos >>= λ word_start.
      if ltb word_start state.cursor_pos
      then (replace_range word_start state.cursor_pos "" state.input >>= λ input.
          sync_mention_after_delete env (with_input input word_start state) >>= λ s.
          some (sync_palette_after_delete s))
      else some state

  -- The mention picker after a character was typed.
  unfoldable pub mention_after_char : Char → InputState → Option InputState
  unfolding find_at_context
  mention_after_char c state = find_at_context state.input state.cursor_pos >>= λ context.
      elim context [
        | none ↦ some (close_mention state)
        | some (at_byte, query) ↦
            let m =
              Mention.activate at_byte env.online_users env.daemon_users query state.mention in
            if state.mention.picker.active || nat_eq (code c) b'@'
            then some (with_mention (mention_unless_empty m) state)
            else some state
      ]

  unfoldable pub handle_char : Char → InputState → Option InputState
  unfolding insert_str refilter_choice mention_after_char palette_after_char
  handle_char c state = insert_str state.cursor_pos (String.◌∷◌ c "") state.input >>= λ input.
      let typed = with_input input (state.cursor_pos + len_utf8 (code c)) state in
      if typed.choice.picker.active
      then refilter_choice typed
      else (mention_after_char c typed >>= λ s. some (palette_after_char c s))

  unfoldable pub handle_backspace : InputState → Option InputState
  unfolding slice last_index remove refilter_choice
  handle_backspace state =
      if ltb 0 state.cursor_pos
      then (slice 0 state.cursor_pos state.input >>= λ before.
          let prev = last_index before in
          remove prev state.input >>= λ input.
          let shorter = with_input input prev state in
          if shorter.choice.picker.active
          then if ltb shorter.cursor_pos shorter.choice.value_start
            then some (close_choice shorter)
            else refilter_choice shorter
          else (sync_mention_after_delete env shorter >>= λ s. some (sync_palette_after_delete s)))
      else some state

  unfoldable pub handle_left : InputState → Option InputState
  unfolding slice last_index sync_mention_after_cursor_move
  handle_left state =
      if ltb 0 state.cursor_pos
      then (slice 0 state.cursor_pos state.input >>= λ before.
          sync_mention_after_cursor_move env (with_cursor (last_index before) state))
      else sync_mention_after_cursor_move env state

  unfoldable pub handle_right : InputState → Option InputState
  unfolding slice first_width sync_mention_after_cursor_move
  handle_right state =
      if ltb state.cursor_pos (len state.input)
      then (slice state.cursor_pos (len state.input) state.input >>= λ after.
          first_width after >>= λ w.
          sync_mention_after_cursor_move env (with_cursor (state.cursor_pos + w) state))
      else sync_mention_after_cursor_move env state

  unfoldable pub handle_word_left : InputState → Option InputState
  unfolding prev_word_start sync_mention_after_cursor_move
  handle_word_left state = prev_word_start state.input state.cursor_pos >>= λ start.
      sync_mention_after_cursor_move env (with_cursor start state)

  unfoldable pub handle_word_right : InputState → Option InputState
  unfolding next_word_end sync_mention_after_cursor_move
  handle_word_right state = next_word_end state.input state.cursor_pos >>= λ stop.
      sync_mention_after_cursor_move env (with_cursor stop state)

-- `KeyCode`, as far as the keys are told apart, and the modifiers.
pub data KeyCode : Type 0 where
  esc tab enter up down backspace left right home end page_up page_down other : KeyCode
  char : Char → KeyCode

pub record Modifiers : Type 0 where
  pub control : Bool
  pub alt : Bool
  pub shift : Bool

-- A handler that never ends the turn with an action.
abbrev pub quietly : Option InputState → Option (Option Action × InputState)
quietly m = m >>= λ s. some (none, s)

module _ (env : Env) where
  -- The arms for characters.
  unfoldable pub handle_char_key :
      Char → Modifiers → InputState → Option (Option Action × InputState)
  unfolding handle_word_left handle_word_right handle_char
  handle_char_key c mods state =
      let k = code c in
      if nat_eq k b'c' && mods.control
      then some (some quit, state)
      else if nat_eq k b'n' && mods.control
      then some (some next_tab, state)
      else if nat_eq k b'p' && mods.control
      then some (some prev_tab, state)
      else if leb b'1' k && leb k b'9' && mods.control
      then some (some (switch_tab (k - b'1')), state)
      else if nat_eq k b'b' && mods.alt
      then quietly (handle_word_left env state)
      else if nat_eq k b'f' && mods.alt
      then quietly (handle_word_right env state)
      else quietly (handle_char env c state)

  unfoldable pub handle_tab : InputState → Option InputState
  unfolding handle_tab_choice handle_tab_mention complete_palette_selection
  handle_tab state =
      if state.choice.picker.active
      then handle_tab_choice state
      else if state.mention.picker.active
      then handle_tab_mention state
      else if state.palette.active
      then complete_palette_selection env state
      else some state

  unfoldable pub handle_key : KeyCode → Modifiers → InputState → Option (Option Action × InputState)
  unfolding handle_esc handle_tab handle_enter handle_up handle_down handle_char_key
      handle_word_delete handle_backspace handle_left handle_right handle_word_left
      handle_word_right
  handle_key esc mods state = some (none, handle_esc state)
  handle_key tab mods state = quietly (handle_tab state)
  handle_key enter mods state = handle_enter env mods.shift state
  handle_key up mods state = quietly (handle_up env state)
  handle_key down mods state = quietly (handle_down env state)
  handle_key (char c) mods state = handle_char_key c mods state
  handle_key backspace mods state =
      quietly (if mods.alt then handle_word_delete env state else handle_backspace env state)
  handle_key left mods state =
      quietly (if mods.alt then handle_word_left env state else handle_left env state)
  handle_key right mods state =
      quietly (if mods.alt then handle_word_right env state else handle_right env state)
  handle_key home mods state = quietly (sync_mention_after_cursor_move env (with_cursor 0 state))
  handle_key end mods state =
      quietly (sync_mention_after_cursor_move env (with_cursor (len state.input) state))
  handle_key page_up mods state = some (
    none,
    record state { scroll_offset = min (state.scroll_offset + env.visible_count) max_usize },
  )
  handle_key page_down mods state =
      some (none, record state { scroll_offset = state.scroll_offset - env.visible_count })
  handle_key other mods state = some (none, state)
