-- ===== src/Tui/Input/Safe/Enter.antt =====
-- `handle_enter` of crates/room-cli/src/tui/input.rs does not panic.
use Prim.Native.Char.{Char, code}
use text.Mathlib.TextLemmas.{nil-append, append_assoc, cons-append}
use room.Base.{
  ℕ, ◌+◌, ◌-◌, ◌<◌, String, ◌<>◌, ◌≡◌, refl, sym, ap, ◌∙◌, Bool, true, false, not, ◌&&◌, Option,
  none, some, arith, ltb, Option-cases, inl, inr,
}
use room.Base.Text.{is_empty_text}
use room.Tui.Text.{
  len_utf8, len, len-append, slice, slice_front, insert_str, remove, split_at-IsBoundary,
}
use room.Tui.Text.Positions.{
  Safe, Safe-bind, IsAt, IsAt-zero, IsAt-len, IsAt-le, insert_str-Safe, remove-Safe,
}
use room.Tui.Parse.{Action, ends_with_backslash, apply_backslash_enter, parse_dm_input}
use room.Tui.Input.{
  InputState, Env, with_input, handle_tab_choice, handle_tab_mention, complete_palette_selection,
  submit, cleared, handle_enter,
}
use room.Tui.Input.Keys.{quietly}
use room.Tui.Input.Valid.{IsValid}
use room.Tui.Input.Safe.{Safe-if, Safe-Option, none_open}
use room.Tui.Input.Safe.Completions.{
  handle_tab_choice-Safe, handle_tab_mention-Safe, complete_palette_selection-Safe,
}

-- What holds of a key's result.
abbrev pub Turned : Option Action × InputState → Type 0
Turned turn = IsValid turn.1

pub quietly-Safe : (m : Option InputState) → Safe m IsValid → Safe (quietly m) Turned
quietly-Safe none h = h
quietly-Safe (some s) h = h

-- The backslash in front of the cursor is one byte wide.
ends_with_backslash_lem :
    (front : String)
    → ends_with_backslash front ≡ true
    → (g : String) × (c : Char) × (front ≡ g <> String.◌∷◌ c "") × (len_utf8 (code c) ≡ 1)
unfolding ends_with_backslash len_utf8
ends_with_backslash_lem String.[] h = absurd (ground (arith, h))
ends_with_backslash_lem (String.◌∷◌ c String.[]) h =
    ("", c, sym (nil-append (String.◌∷◌ c "")), ground (arith, h))
ends_with_backslash_lem (String.◌∷◌ b (String.◌∷◌ d s)) h =
    let (g, c, same, one) = ends_with_backslash_lem (String.◌∷◌ d s) h in
    (
      String.◌∷◌ b g,
      c,
      ap (λ t. String.◌∷◌ b t) same ∙ sym (cons-append b g (String.◌∷◌ c "")),
      one,
    )

backslash-IsAt :
    (front behind : String)
    → ends_with_backslash front ≡ true
    → (0 < len front) × IsAt (len front - 1) (front <> behind)
unfolding len
backslash-IsAt front behind h =
    let (g, c, same, one) = ends_with_backslash_lem front h in
    let longer : len front ≡ len g + (len_utf8 (code c) + 0) =
      ap len same ∙ len-append g (String.◌∷◌ c "") in
    let before : len front - 1 ≡ len g = omega (arith, longer, one) in
    (
      omega (arith, longer, one),
      rw (before, same, append_assoc) (IsAt-len g (String.◌∷◌ c "" <> behind)),
    )

-- The cursor that Enter leaves behind the new line.
abbrev Broken : Option (String × ℕ) → Type 0
Broken none = Unit
Broken (some (input, pos)) = IsAt pos input

apply_backslash_enter-Safe :
    (pos : ℕ) (buf : String) → IsAt pos buf → Safe (apply_backslash_enter buf pos) Broken
unfolding apply_backslash_enter len len_utf8
apply_backslash_enter-Safe pos buf h =
    let (f, b, same, at_f) = split_at-IsBoundary pos buf h in
    let front : Safe (slice 0 pos buf) (λ before. before ≡ f) =
      rw (same, at_f, slice_front f b) refl in
    Safe-if (ltb 0 pos) _ _ Broken
      (λ e. Safe-bind (slice 0 pos buf) _ _ Broken front (λ before is_front.
        Safe-if (ends_with_backslash before) _ _ Broken
          (λ ends.
            let (some_front, at_backslash) = backslash-IsAt f b (rw is_front at ends) in
            let at_bs : IsAt (pos - 1) buf = rw (same, at_f) at_backslash in
            Safe-bind (remove (pos - 1) buf) _ _ Broken
              (remove-Safe (pos - 1) buf at_bs (ground (arith, IsAt-le pos buf h, e)))
              (λ removed (at_removed, keeps).
                Safe-bind (insert_str (pos - 1) "\n" removed) _ _ Broken
                  (insert_str-Safe (pos - 1) "\n" removed at_removed)
                  (λ buf' (at_end, keeps'). at_end)))
          (λ off. tt)))
      (λ e. tt)

module _ (env : Env) where
  cleared-IsValid :
      (state : InputState)
      → IsValid state
      → state.mention.picker.active ≡ false
      → state.choice.picker.active ≡ false
      → IsValid (cleared env state)
  cleared-IsValid state v no_mention no_choice =
      none_open (cleared env state) (IsAt-zero "") no_mention no_choice v.has_commands

  submit-Safe :
      (state : InputState)
      → IsValid state
      → state.mention.picker.active ≡ false
      → state.choice.picker.active ≡ false
      → Safe (submit env state) Turned
  unfolding submit
  submit-Safe state v no_mention no_choice =
      Safe-bind (apply_backslash_enter state.input state.cursor_pos) _ _ Turned
        (apply_backslash_enter-Safe state.cursor_pos state.input v.cursor)
        (λ newline broken. elim (Option-cases newline) [
          | inr ((input, pos), n) ↦ rw n (
              none_open (with_input input pos state) (rw n at broken) no_mention no_choice
                v.has_commands)
          | inl n ↦ rw n (
              Safe-if (is_empty_text state.input) _ _ Turned (λ e. v)
                (λ e.
                  Safe-Option (parse_dm_input state.input) _ _ Turned
                    (λ n'. cleared-IsValid state v no_mention no_choice)
                    (λ dm e'. cleared-IsValid state v no_mention no_choice)))
        ])

  pub handle_enter-Safe :
      (shift : Bool) (state : InputState)
      → IsValid state
      → Safe (handle_enter env shift state) Turned
  unfolding handle_enter len len_utf8
  handle_enter-Safe shift state v =
      Safe-if state.choice.picker.active _ _ Turned
        (λ on. quietly-Safe (handle_tab_choice state) (handle_tab_choice-Safe state v on))
        (λ no_choice.
          Safe-if state.mention.picker.active _ _ Turned
            (λ on.
              quietly-Safe (handle_tab_mention state)
                (handle_tab_mention-Safe state v on no_choice))
            (λ no_mention.
              Safe-if state.palette.active _ _ Turned
                (λ on.
                  Safe-bind (complete_palette_selection env state) _ IsValid Turned
                    (complete_palette_selection-Safe env state v no_mention no_choice)
                    (λ s v'.
                      Safe-if
                        (not s.mention.picker.active
                          && not s.choice.picker.active
                          && not (is_empty_text s.input))
                        _ _ Turned
                        (λ e. cleared-IsValid s v' (ground (arith, e)) (ground (arith, e)))
                        (λ e. v')))
                (λ off.
                  Safe-if shift _ _ Turned
                    (λ on.
                      Safe-bind (insert_str state.cursor_pos "\n" state.input) _ _ Turned
                        (insert_str-Safe state.cursor_pos "\n" state.input v.cursor)
                        (λ input (at_end, keeps).
                          none_open (with_input input (state.cursor_pos + 1) state) at_end
                            no_mention no_choice v.has_commands))
                    (λ off'. submit-Safe state v no_mention no_choice))))
