-- ===== src/Tui/Input/Safe/Panics.antt =====
-- No key makes the input box of crates/room-cli/src/tui/input.rs panic, but for those that leave an open
-- choice backwards.
use Prim.Native.Char.{Char, code}
use Prim.Native.Nat.{min}
use mathlib.Core.Path.{subst}
use mathlib.Core.Option.{none-ne-some, some-injective}
use room.Base.{
  ◌+◌, ◌-◌, ◌<◌, ◌≡◌, refl, Bool, true, false, ◌&&◌, Option, none, some, List, arith, leb, nat_eq,
  is_some,
}
use room.Base.Text.{is_empty_text}
use room.Tui.Text.{len_utf8, slice, insert_str, split_at_zero}
use room.Tui.Text.Positions.{Safe, IsAt-zero}
use room.Protocol.Schema.{CommandInfo}
use room.Tui.Widgets.Palette.{
  CommandPalette, from_commands, completions_at, is_param_required, is_username_param,
}
use room.Tui.Widgets.Palette as Palette
use room.Tui.Parse.{Action}
use room.Tui.Input.{
  new, max_usize, InputState, Env, with_new_input, with_cursor, close_choice,
  sync_mention_after_cursor_move, handle_esc,
}
use room.Tui.Input.Keys.{
  refilter_choice, handle_char, KeyCode, Modifiers, handle_char_key, handle_key,
}
use room.Tui.Input.Valid.{HasCommands, IsValid, from_commands-HasCommands}
use room.Tui.Input.Safe.{Safe-if, Holds-if, ready, none_open, closed, with_palette-IsValid}
use room.Tui.Input.Safe.Moves.{
  moved, to_end, scrolled, handle_left-Safe, handle_right-Safe, handle_word_left-Safe,
  handle_word_right-Safe, handle_up-Safe, handle_down-Safe,
}
use room.Tui.Input.Safe.Edits.{handle_char-Safe, handle_word_delete-Safe, handle_backspace-Safe}
use room.Tui.Input.Safe.Completions.{handle_tab-Safe}
use room.Tui.Input.Safe.Enter.{Turned, quietly-Safe, handle_enter-Safe}
use room.Tui.Input.Keys.KeyCode.{
  esc, tab, enter, up, down, backspace, left, right, home, end, page_up, page_down, other, char,
}

-- The keys that move the cursor backwards without a look at the choice picker.
unfoldable pub goes_back : KeyCode → Modifiers → Bool
goes_back left mods = true
goes_back home mods = true
goes_back backspace mods = mods.alt
goes_back (char c) mods = nat_eq (code c) b'b' && mods.alt
goes_back _ mods = false

-- The input box at the start.
new-IsValid : (commands : CommandPalette) → HasCommands commands → IsValid (new commands)
unfolding new
new-IsValid commands h = none_open (new commands) (IsAt-zero "") refl refl h

handle_esc-IsValid : (state : InputState) → IsValid state → IsValid (handle_esc state)
unfolding handle_esc
handle_esc-IsValid state v =
    Holds-if state.choice.picker.active _ _ IsValid
      (λ on. none_open (close_choice state) v.cursor (v.one_picker on) refl v.has_commands)
      (λ no_choice.
        Holds-if state.mention.picker.active _ _ IsValid (λ on. closed state (ready state v))
          (λ no_mention.
            Holds-if state.palette.active _ _ IsValid
              (λ on. with_palette-IsValid (Palette.deactivate state.palette) state v v.has_commands)
              (λ off.
                Holds-if (is_empty_text state.input) _ _ IsValid (λ e. v)
                  (λ e.
                    none_open (with_new_input "" 0 state) (IsAt-zero "") no_mention no_choice
                      v.has_commands))))

not_open : (active back : Bool) → (active ≡ true → back ≡ false) → back ≡ true → active ≡ false
not_open active back h b = ground (arith, h, b)

module _ (env : Env) where
  handle_char_key-Safe :
      (c : Char) (mods : Modifiers) (state : InputState)
      → IsValid state
      → (state.choice.picker.active ≡ true → nat_eq (code c) b'b' && mods.alt ≡ false)
      → Safe (handle_char_key env c mods state) Turned
  unfolding handle_char_key
  handle_char_key-Safe c mods state v h =
      let k = code c in
      Safe-if (nat_eq k b'c' && mods.control) _ _ Turned (λ e. v)
        (λ e.
          Safe-if (nat_eq k b'n' && mods.control) _ _ Turned (λ e. v)
            (λ e.
              Safe-if (nat_eq k b'p' && mods.control) _ _ Turned (λ e. v)
                (λ e.
                  Safe-if (leb b'1' k && leb k b'9' && mods.control) _ _ Turned (λ e. v)
                    (λ e.
                      Safe-if (nat_eq k b'b' && mods.alt) _ _ Turned
                        (λ b. quietly-Safe _ (
                          handle_word_left-Safe env state v
                            (not_open state.choice.picker.active _ h b)))
                        (λ e.
                          Safe-if (nat_eq k b'f' && mods.alt) _ _ Turned
                            (λ e. quietly-Safe _ (handle_word_right-Safe env state v))
                            (λ e. quietly-Safe _ (handle_char-Safe env c state v)))))))

  -- A key in a valid state does not panic and leaves a valid state, unless the choice picker is open and
  -- the key is one that moves the cursor backwards without a look at it.
  pub handle_key-Safe :
      (key : KeyCode) (mods : Modifiers) (state : InputState)
      → IsValid state
      → (state.choice.picker.active ≡ true → goes_back key mods ≡ false)
      → Safe (handle_key env key mods state) (λ turn. IsValid turn.1)
  unfolding handle_key goes_back
  handle_key-Safe esc mods state v h = handle_esc-IsValid state v
  handle_key-Safe tab mods state v h = quietly-Safe _ (handle_tab-Safe env state v)
  handle_key-Safe enter mods state v h = handle_enter-Safe env mods.shift state v
  handle_key-Safe up mods state v h = quietly-Safe _ (handle_up-Safe env state v)
  handle_key-Safe down mods state v h = quietly-Safe _ (handle_down-Safe env state v)
  handle_key-Safe (char c) mods state v h = handle_char_key-Safe c mods state v h
  handle_key-Safe backspace mods state v h = quietly-Safe _ (
      Safe-if mods.alt _ _ IsValid
        (λ alt.
          handle_word_delete-Safe env state v (not_open state.choice.picker.active mods.alt h alt))
        (λ e. handle_backspace-Safe env state v))
  handle_key-Safe left mods state v h =
      let off = not_open state.choice.picker.active true h refl in
      quietly-Safe _ (
        Safe-if mods.alt _ _ IsValid (λ alt. handle_word_left-Safe env state v off)
          (λ e. handle_left-Safe env state v off))
  handle_key-Safe right mods state v h = quietly-Safe _ (
      Safe-if mods.alt _ _ IsValid (λ alt. handle_word_right-Safe env state v)
        (λ e. handle_right-Safe env state v))
  handle_key-Safe home mods state v h =
      let off = not_open state.choice.picker.active true h refl in
      quietly-Safe _
        (moved env 0 state v (IsAt-zero state.input) (λ on. absurd (ground (arith, on, off))))
  handle_key-Safe end mods state v h = quietly-Safe _ (to_end env state v)
  handle_key-Safe page_up mods state v h =
      scrolled (min (state.scroll_offset + env.visible_count) max_usize) state v
  handle_key-Safe page_down mods state v h =
      scrolled (state.scroll_offset - env.visible_count) state v
  handle_key-Safe other mods state v h = v

  -- While the choice picker is open in a valid state, Home succeeds and a character that is typed after it
  -- panics, unless it is as wide as all that stands in front of the choice.
  pub home_then_char_panics :
      (c : Char) (mods : Modifiers) (state : InputState)
      → IsValid state
      → state.choice.picker.active ≡ true
      → len_utf8 (code c) < state.choice.value_start
      → (handle_key env home mods state ≡ some (none, with_cursor 0 state))
        × (handle_char env c (with_cursor 0 state) ≡ none)
  unfolding handle_key handle_char refilter_choice slice sync_mention_after_cursor_move insert_str
  home_then_char_panics c mods state v on lt =
      (ground (arith, on, v.one_picker on), ground (arith, on, lt, split_at_zero state.input))

-- The states that keys reach, each pressed in an environment of its own, where no key goes back while the
-- choice picker is open.
pub data Reached (commands : CommandPalette) : InputState → Type 0 where
  start : Reached commands (new commands)
  press :
      {state state' : InputState}
      → (env : Env) (key : KeyCode) (mods : Modifiers) (action : Option Action)
      → Reached commands state
      → (state.choice.picker.active ≡ true → goes_back key mods ≡ false)
      → handle_key env key mods state ≡ some (action, state')
      → Reached commands state'

Safe-some : {A : Type 0} (m : Option A) (P : A → Type 0) (a : A) → Safe m P → m ≡ some a → P a
Safe-some none P a h e = absurd (none-ne-some a e)
Safe-some (some b) P a h e = subst P (some-injective b a e) h

Safe-is_some : {A : Type 0} (m : Option A) (P : A → Type 0) → Safe m P → is_some m ≡ true
Safe-is_some none P h = absurd h
Safe-is_some (some a) P h = refl

Reached-IsValid :
    (infos : List CommandInfo) (state : InputState)
    → Reached (from_commands infos) state
    → IsValid state
Reached-IsValid infos state start =
    new-IsValid (from_commands infos) (from_commands-HasCommands infos)
Reached-IsValid infos state (press {state = s} env key mods action r h e) =
    Safe-some (handle_key env key mods s) (λ turn. IsValid turn.1) (action, state)
      (handle_key-Safe env key mods s (Reached-IsValid infos s r) h) e

-- However many keys were pressed since the start, with whatever users, width and height at each of them,
-- the next key gives a result, as long as no key goes back while the choice picker is open.
pub keys_never_panic :
    (env : Env) (infos : List CommandInfo) (key : KeyCode) (mods : Modifiers) (state : InputState)
    → Reached (from_commands infos) state
    → (state.choice.picker.active ≡ true → goes_back key mods ≡ false)
    → is_some (handle_key env key mods state) ≡ true
keys_never_panic env infos key mods state r h =
    Safe-is_some (handle_key env key mods state) (λ turn. IsValid turn.1)
      (handle_key-Safe env key mods state (Reached-IsValid infos state r) h)
