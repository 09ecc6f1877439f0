-- ===== src/Tui/Input/Safe/Edits.antt =====
-- The handlers of crates/room-cli/src/tui/input.rs that edit the input do not panic.
use Prim.Native.Char.{Char, code}
use room.Base.{
  ℕ, ◌+◌, ◌≤◌, String, ◌≡◌, refl, true, false, ◌&&◌, none, some, arith, if◌then◌else◌, ltb, nat_eq,
  is_empty, Option-cases, inl, inr, ◌||◌, ◌==◌,
}
use room.Base.Text.{strip_prefix}
use room.Tui.Text.{◌>>=◌, len_utf8, len, slice, insert_str, remove, replace_range}
use room.Tui.Text.Positions.{
  Safe, Safe-bind, IsAt, IsAt-le, Keeps, insert_str-Safe, replace_range-Safe, remove-Safe,
}
use room.Tui.Display.{find_at_context, prev_word_start}
use room.Tui.Widgets.Mention.{MentionPicker, selected_user}
use room.Tui.Widgets.Mention as Mention
use room.Tui.Widgets.Palette.{CommandPalette, completions_at, is_param_required, is_username_param}
use room.Tui.Widgets.Palette as Palette
use room.Tui.Input.{
  InputState, Env, with_input, close_choice, close_palette, with_palette, sync_mention_after_delete,
  sync_palette_after_delete,
}
use room.Tui.Input.Keys.{
  last_index, handle_word_delete, handle_char, mention_after_char, palette_after_char,
  handle_backspace,
}
use room.Tui.Input.Valid.{
  HasCommands, IsValid, find_at_context-Safe, activate-HasCommands, update_filter-HasCommands,
}
use room.Tui.Input.Safe.{
  Safe-if, Holds-if, IsReady, ready, quiet, none_open, mentioned, closed, with_palette-IsValid,
  sync_palette_after_delete-IsValid, sync_mention_after_delete-Safe, refilter_choice-Safe,
}
use room.Tui.Input.Safe.Places.{last_index-Safe, prev_word_start-Safe}

-- Text was inserted at the cursor.
inserted :
    (t input : String) (w : ℕ) (state : InputState)
    → IsValid state
    → len t ≡ w
    → IsAt (state.cursor_pos + len t) input
    → Keeps state.cursor_pos state.input input
    → IsValid (with_input input (state.cursor_pos + w) state)
inserted t input w state v same at_end keeps =
    let begun : (start : ℕ)
        → (start ≤ state.cursor_pos) × IsAt start state.input
        → (start ≤ state.cursor_pos + w) × IsAt start input =
      λ start h. (omega (arith, h.0), keeps start h.0 h.1) in
    record {
      cursor = rw same at at_end;
      in_mention = λ on. begun state.mention.at_byte (v.in_mention on);
      in_choice = λ on. begun state.choice.value_start (v.in_choice on);
      one_picker = v.one_picker;
      has_commands = v.has_commands;
    }

-- The text was cut at a boundary in front of the cursor: the mention picker may point behind it.
shortened :
    (pos : ℕ) (input : String) (state : InputState)
    → IsValid state
    → IsAt pos input
    → (state.choice.picker.active ≡ true
        → (state.choice.value_start ≤ pos) × IsAt state.choice.value_start input)
    → IsReady (with_input input pos state)
shortened pos input state v at_pos h = record {
  cursor = at_pos;
  in_choice = h;
  has_commands = v.has_commands;
}

palette_after_char-IsValid :
    (c : Char) (state : InputState) → IsValid state → IsValid (palette_after_char c state)
unfolding palette_after_char
palette_after_char-IsValid c state v =
    Holds-if (nat_eq (code c) b'/' && state.input == "/") _ _ IsValid
      (λ e.
        with_palette-IsValid (Palette.activate state.palette) state v
          (activate-HasCommands state.palette))
      (λ e.
        Holds-if state.palette.active _ _ IsValid
          (λ on.
            elim (strip_prefix "/" state.input)
              as (λ o. IsValid (elim o [
                | none ↦ close_palette state
                | some query ↦
                    let p = Palette.update_filter query state.palette in
                    with_palette (if is_empty p.filtered then Palette.deactivate p else p) state
              ])) [
                | none ↦
                    with_palette-IsValid (Palette.deactivate state.palette) state v v.has_commands
                | some query ↦
                    let p = Palette.update_filter query state.palette in
                    let h = update_filter-HasCommands query state.palette in
                    with_palette-IsValid (if is_empty p.filtered then Palette.deactivate p else p)
                      state v
                      (Holds-if (is_empty p.filtered) (Palette.deactivate p) p HasCommands (λ e'. h)
                        (λ e'. h))
              ])
          (λ off. v))

module _ (env : Env) where
  mention_after_char-Safe :
      (c : Char) (state : InputState)
      → IsValid state
      → state.choice.picker.active ≡ false
      → Safe (mention_after_char env c state) IsValid
  unfolding mention_after_char Mention.activate Mention.update_filter
  mention_after_char-Safe c state v off =
      Safe-bind (find_at_context state.input state.cursor_pos) _ _ IsValid
        (find_at_context-Safe state.input state.cursor_pos v.cursor)
        (λ context spans. elim (Option-cases context) [
          | inl n ↦ rw n (closed state (ready state v))
          | inr ((at_byte, query), n) ↦
              let m =
                Mention.activate at_byte env.online_users env.daemon_users query state.mention in
              rw n (
                Safe-if (state.mention.picker.active || nat_eq (code c) b'@') _ _ IsValid
                  (λ e. mentioned m state (ready state v) off (spans at_byte query n)) (λ e. v))
        ])

  pub handle_char-Safe :
      (c : Char) (state : InputState) → IsValid state → Safe (handle_char env c state) IsValid
  unfolding handle_char len
  handle_char-Safe c state v =
      let one : len (String.◌∷◌ c "") ≡ len_utf8 (code c) = omega arith in
      Safe-bind (insert_str state.cursor_pos (String.◌∷◌ c "") state.input) _ _ IsValid
        (insert_str-Safe state.cursor_pos (String.◌∷◌ c "") state.input v.cursor)
        (λ input (at_end, keeps).
          let typed = with_input input (state.cursor_pos + len_utf8 (code c)) state in
          let v' = inserted (String.◌∷◌ c "") input (len_utf8 (code c)) state v one at_end keeps in
          Safe-if typed.choice.picker.active _ _ IsValid (λ on. refilter_choice-Safe typed v' on)
            (λ off.
              Safe-bind (mention_after_char env c typed) _ IsValid IsValid
                (mention_after_char-Safe c typed v' off)
                (λ s v''. palette_after_char-IsValid c s v'')))

  -- What follows a deletion while no choice is open.
  synced :
      (state : InputState)
      → IsReady state
      → state.choice.picker.active ≡ false
      → Safe
          (sync_mention_after_delete env state >>= λ s. some (sync_palette_after_delete s))
          IsValid
  synced state r off =
      Safe-bind (sync_mention_after_delete env state) _ IsValid IsValid
        (sync_mention_after_delete-Safe env state r off)
        (λ s v. sync_palette_after_delete-IsValid s v)

  pub handle_word_delete-Safe :
      (state : InputState)
      → IsValid state
      → state.choice.picker.active ≡ false
      → Safe (handle_word_delete env state) IsValid
  unfolding handle_word_delete len
  handle_word_delete-Safe state v off =
      Safe-bind (prev_word_start state.input state.cursor_pos) _ _ IsValid
        (prev_word_start-Safe state.cursor_pos state.input v.cursor)
        (λ start (le, at_start).
          Safe-if (ltb start state.cursor_pos) _ _ IsValid
            (λ e.
              Safe-bind (replace_range start state.cursor_pos "" state.input) _ _ IsValid
                (replace_range-Safe start state.cursor_pos "" state.input le at_start v.cursor)
                (λ input (at_end, keeps).
                  let same : start + 0 ≡ start = omega arith in
                  synced (with_input input start state)
                    (shortened start input state v (rw same at at_end)
                      (λ on. absurd (ground (arith, on, off))))
                    off))
            (λ e. v))

  pub handle_backspace-Safe :
      (state : InputState) → IsValid state → Safe (handle_backspace env state) IsValid
  unfolding handle_backspace
  handle_backspace-Safe state v =
      Safe-if (ltb 0 state.cursor_pos) _ _ IsValid
        (λ e.
          Safe-bind (slice 0 state.cursor_pos state.input) _ _ IsValid
            (last_index-Safe state.cursor_pos state.input v.cursor (ground (arith, e)))
            (λ before (lt, at_last).
              let prev = last_index before in
              Safe-bind (remove prev state.input) _ _ IsValid
                (remove-Safe prev state.input at_last
                  (omega (arith, lt, IsAt-le state.cursor_pos state.input v.cursor)))
                (λ input (at_prev, keeps).
                  let shorter = with_input input prev state in
                  Safe-if state.choice.picker.active _ _ IsValid
                    (λ on.
                      Safe-if (ltb prev state.choice.value_start) _ _ IsValid
                        (λ e'.
                          none_open (close_choice shorter) at_prev (v.one_picker on) refl
                            v.has_commands)
                        (λ e'.
                          let le : state.choice.value_start ≤ prev = ground (arith, e') in
                          refilter_choice-Safe shorter
                            (quiet shorter
                              (shortened prev input state v at_prev
                                (λ on'. (le, keeps state.choice.value_start le (v.in_choice on).1)))
                              (v.one_picker on))
                            on))
                    (λ off.
                      synced shorter
                        (shortened prev input state v at_prev
                          (λ on. absurd (ground (arith, on, off))))
                        off))))
        (λ e. v)
