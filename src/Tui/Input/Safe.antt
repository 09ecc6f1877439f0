-- ===== src/Tui/Input/Safe.antt =====
-- The parts of the handlers of crates/room-cli/src/tui/input.rs that keep the invariant.
pub mod Places
pub mod Moves
pub mod Edits
pub mod Completions
pub mod Enter
pub mod Panics
use Prim.Native.Char.{Char, code}
use room.Base.{
  ℕ, ◌+◌, ◌-◌, ◌≤◌, ◌<◌, String, ◌<>◌, ◌≡◌, refl, sym, Bool, true, false, not, ◌&&◌, Option, none,
  some, List, [], ◌∷◌, arith, if◌then◌else◌, ltb, leb, nat_eq, is_some, is_empty, Bool-cases,
  Option-cases, inl, inr,
}
use room.Base.Text.{strip_prefix, is_empty_text}
use room.Tui.Text.{◌>>=◌, len, slice}
use room.Tui.Text.Positions.{Safe, Safe-bind, IsAt, slice-Safe}
use room.Tui.Display.{find_at_context}
use room.Tui.Widgets.{PickerState, deactivate}
use room.Tui.Widgets.Mention.{MentionPicker}
use room.Tui.Widgets.Mention as Mention
use room.Tui.Widgets.Choice.{ChoicePicker}
use room.Tui.Widgets.Choice as Choice
use room.Tui.Widgets.Palette.{CommandPalette}
use room.Tui.Widgets.Palette as Palette
use room.Tui.Input.{
  InputState, Env, close_mention, close_choice, with_mention, with_choice, with_palette,
  close_palette, mention_unless_empty, choice_unless_empty, sync_mention_after_cursor_move,
  sync_mention_after_delete, sync_palette_after_delete,
}
use room.Tui.Input.Keys.{refilter_choice}
use room.Tui.Input.Valid.{
  Opened, HasCommands, IsValid, find_at_context-Safe, update_filter-HasCommands,
}

-- Both branches of a test.
pub Safe-if :
    {A : Type 0} (b : Bool) (x y : Option A) (P : A → Type 0)
    → (b ≡ true → Safe x P)
    → (b ≡ false → Safe y P)
    → Safe (if b then x else y) P
Safe-if true x y P h k = h refl
Safe-if false x y P h k = k refl

pub Holds-if :
    {A : Type 0} (b : Bool) (x y : A) (P : A → Type 0)
    → (b ≡ true → P x)
    → (b ≡ false → P y)
    → P (if b then x else y)
Holds-if true x y P h k = h refl
Holds-if false x y P h k = k refl

-- Both cases of an option.
pub Safe-Option :
    {A B : Type 0} (o : Option A) (x : Option B) (f : A → Option B) (P : B → Type 0)
    → (o ≡ none → Safe x P)
    → ((a : A) → o ≡ some a → Safe (f a) P)
    → Safe (elim o [ none ↦ x | some a ↦ f a ]) P
Safe-Option none x f P h k = h refl
Safe-Option (some a) x f P h k = k a refl

pub Safe-map :
    {A : Type 0} (m : Option A) (Q P : A → Type 0) → Safe m Q → ((a : A) → Q a → P a) → Safe m P
Safe-map none Q P h f = h
Safe-map (some a) Q P h f = f a h

-- A result that is there.
pub is_some-Safe : {A : Type 0} (m : Option A) → is_some m ≡ true → Safe m (λ a. Unit {0})
is_some-Safe none h = absurd (ground (arith, h))
is_some-Safe (some a) h = tt

-- What of the invariant does not name the mention picker.
pub record IsReady (state : InputState) : Type 0 where
  pub cursor : IsAt state.cursor_pos state.input
  pub in_choice :
      Opened state.choice.picker.active state.choice.value_start state.cursor_pos state.input
  pub has_commands : HasCommands state.palette

pub ready : (state : InputState) → IsValid state → IsReady state
ready state v = record { cursor = v.cursor; in_choice = v.in_choice; has_commands = v.has_commands }

pub quiet :
    (state : InputState) → IsReady state → state.mention.picker.active ≡ false → IsValid state
quiet state r off = record {
  cursor = r.cursor;
  in_mention = λ on. absurd (ground (arith, on, off));
  in_choice = r.in_choice;
  one_picker = λ on. off;
  has_commands = r.has_commands;
}

pub none_open :
    (state : InputState)
    → IsAt state.cursor_pos state.input
    → state.mention.picker.active ≡ false
    → state.choice.picker.active ≡ false
    → HasCommands state.palette
    → IsValid state
none_open state c no_mention no_choice h =
    quiet state
      (record {
        cursor = c;
        in_choice = λ on. absurd (ground (arith, on, no_choice));
        has_commands = h;
      })
      no_mention

mention_unless_empty-at_byte : (m : MentionPicker) → (mention_unless_empty m).at_byte ≡ m.at_byte
mention_unless_empty-at_byte m = ground arith

choice_unless_empty-value_start :
    (c : ChoicePicker) → (choice_unless_empty c).value_start ≡ c.value_start
choice_unless_empty-value_start c = ground arith

-- A mention picker that was opened or moved.
pub mentioned :
    (m : MentionPicker) (state : InputState)
    → IsReady state
    → state.choice.picker.active ≡ false
    → (m.at_byte ≤ state.cursor_pos) × IsAt m.at_byte state.input
    → IsValid (with_mention (mention_unless_empty m) state)
mentioned m state r off at_m = record {
  cursor = r.cursor;
  in_mention = λ on. rw (mention_unless_empty-at_byte m) at_m;
  in_choice = r.in_choice;
  one_picker = λ on. absurd (ground (arith, on, off));
  has_commands = r.has_commands;
}

-- A choice picker that was opened or filtered.
pub chosen :
    (c : ChoicePicker) (state : InputState)
    → IsValid state
    → state.mention.picker.active ≡ false
    → (c.value_start ≤ state.cursor_pos) × IsAt c.value_start state.input
    → IsValid (with_choice (choice_unless_empty c) state)
chosen c state v off at_c = record {
  cursor = v.cursor;
  in_mention = v.in_mention;
  in_choice = λ on. rw (choice_unless_empty-value_start c) at_c;
  one_picker = λ on. off;
  has_commands = v.has_commands;
}

pub with_palette-IsValid :
    (p : CommandPalette) (state : InputState)
    → IsValid state
    → HasCommands p
    → IsValid (with_palette p state)
with_palette-IsValid p state v h = record {
  cursor = v.cursor;
  in_mention = v.in_mention;
  in_choice = v.in_choice;
  one_picker = v.one_picker;
  has_commands = h;
}

pub closed : (state : InputState) → IsReady state → IsValid (close_mention state)
closed state r =
    quiet (close_mention state)
      (record { cursor = r.cursor; in_choice = r.in_choice; has_commands = r.has_commands }) refl

pub sync_palette_after_delete-IsValid :
    (state : InputState) → IsValid state → IsValid (sync_palette_after_delete state)
unfolding sync_palette_after_delete
sync_palette_after_delete-IsValid state v =
    Holds-if (is_empty_text state.input) _ _ IsValid
      (λ e. with_palette-IsValid (Palette.deactivate state.palette) state v v.has_commands)
      (λ e.
        elim (strip_prefix "/" state.input)
          as (λ o. IsValid (elim o [
            | none ↦ close_palette state
            | some query ↦
                let p = Palette.update_filter query state.palette in
                if is_empty p.filtered
                then with_palette (Palette.deactivate p) state
                else if p.active
                then with_palette p state
                else with_palette (record p { active = true; selected = 0 }) state
          ])) [
            | none ↦ with_palette-IsValid (Palette.deactivate state.palette) state v v.has_commands
            | some query ↦
                let p = Palette.update_filter query state.palette in
                let h = update_filter-HasCommands query state.palette in
                Holds-if (is_empty p.filtered) _ _ IsValid
                  (λ e. with_palette-IsValid (Palette.deactivate p) state v h)
                  (λ e.
                    Holds-if p.active _ _ IsValid (λ e. with_palette-IsValid p state v h)
                      (λ e.
                        with_palette-IsValid (record p { active = true; selected = 0 }) state v h))
          ])

module _ (env : Env) where
  pub sync_mention_after_cursor_move-Safe :
      (state : InputState)
      → IsReady state
      → (state.choice.picker.active ≡ true → state.mention.picker.active ≡ false)
      → Safe (sync_mention_after_cursor_move env state) IsValid
  unfolding sync_mention_after_cursor_move Mention.update_filter
  sync_mention_after_cursor_move-Safe state r one =
      Safe-if (not state.mention.picker.active) _ _ IsValid
        (λ off. quiet state r (ground (arith, off)))
        (λ on.
          let off : state.choice.picker.active ≡ false = ground (arith, on, one) in
          Safe-bind (find_at_context state.input state.cursor_pos) _ _ IsValid
            (find_at_context-Safe state.input state.cursor_pos r.cursor)
            (λ context spans. elim (Option-cases context) [
              | inl n ↦ rw n (closed state r)
              | inr ((at_byte, query), n) ↦ rw n (
                  mentioned
                    (Mention.update_filter env.online_users env.daemon_users query
                      (record state.mention { at_byte = at_byte }))
                    state r off (spans at_byte query n))
            ]))

  pub sync_mention_after_delete-Safe :
      (state : InputState)
      → IsReady state
      → state.choice.picker.active ≡ false
      → Safe (sync_mention_after_delete env state) IsValid
  unfolding sync_mention_after_delete Mention.activate Mention.update_filter
  sync_mention_after_delete-Safe state r off =
      Safe-bind (find_at_context state.input state.cursor_pos) _ _ IsValid
        (find_at_context-Safe state.input state.cursor_pos r.cursor)
        (λ context spans. elim (Option-cases context) [
          | inl n ↦ rw n (closed state r)
          | inr ((at_byte, query), n) ↦
              let moved =
                Mention.update_filter env.online_users env.daemon_users query
                  (record state.mention { at_byte = at_byte }) in
              let opened =
                Mention.activate at_byte env.online_users env.daemon_users query state.mention in
              let m : MentionPicker = if state.mention.picker.active then moved else opened in
              let same : m.at_byte ≡ at_byte = ground arith in
              rw n (mentioned m state r off (rw same (spans at_byte query n)))
        ])

-- The text between the start of the choice and the cursor is a slice.
pub refilter_choice-Safe :
    (state : InputState)
    → IsValid state
    → state.choice.picker.active ≡ true
    → Safe (refilter_choice state) IsValid
unfolding refilter_choice Choice.update_filter
refilter_choice-Safe state v on =
    let (le, at_start) = v.in_choice on in
    Safe-bind (slice state.choice.value_start state.cursor_pos state.input) _ _ IsValid
      (slice-Safe state.choice.value_start state.cursor_pos state.input le at_start v.cursor)
      (λ query found.
        chosen (Choice.update_filter query state.choice) state v (v.one_picker on) (le, at_start))
