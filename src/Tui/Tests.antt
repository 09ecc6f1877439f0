-- ===== src/Tui/Tests.antt =====
-- The terminal interface on concrete inputs.

use room.Base.{
  if◌then◌else◌, nat_eq, ◌==◌, ℕ, ◌+◌, ◌≤◌, String, ◌≡◌, refl, true, false, none, some, List, [],
  ◌∷◌, arith, is_some, length, All,
}
use room.Protocol.Schema.{CommandInfo, command_info, nil, choice}
use room.Tui.Text.{slice, insert_str, len_utf8, len, split_at, split_at-IsBoundary}
use room.Tui.Text.Positions.{Safe}
use room.Tui.Display.{
  wrap_input_display, cursor_display_pos, byte_offset_at_display_pos, find_at_context,
  split_last_at, has_break,
}
use room.Base.Text.{is_empty_text}
use room.Base.Text.Split.{strip_suffix}
use room.Broker.Admin.{kick_text}
use room.Broker.Commands.Status.{status_text}
use room.Tui.Parse.{parse_kick_broadcast, parse_status_broadcast}
use room.Tui.Announcements.{announcements_read_back}
use room.Tui.Display.Cursor.{byte_offset_at_display_pos-cursor_display_pos}
use room.Tui.Display.Rows.{
  wrap_input_display-cursor, wrap_input_display_lem, joined, concat_rows, text_width,
}
use room.Tui.Widgets.Palette.{from_commands, activate, indices}
use room.Tui.Widgets.Mention as Mention
use room.Tui.Input.{InputState, Env, new, with_cursor}
use room.Tui.Input.Keys.{
  Modifiers, handle_key, handle_char_key, handle_char, mention_after_char, palette_after_char,
}
use room.Tui.Input.Keys.KeyCode.{char, home, enter}
use room.Tui.Input.Valid.{IsValid}
use room.Tui.Input.Safe.Panics.{
  goes_back, handle_key-Safe, home_then_char_panics, Reached, keys_never_panic,
}
use room.Tui.Input.Safe.Panics.Reached.{start, press}

-- The letter o is two columns wide here.
abbrev char_width : ℕ → ℕ
char_width c = if nat_eq c b'o' then 2 else 1

abbrev typed : String
typed = "to do\nnow"

at_7 : is_some (split_at 7 typed) ≡ true
unfolding split_at len_utf8
at_7 = refl

byte_offset_at_display_pos-cursor_display_pos_example :
    (row col : ℕ) × (cursor_display_pos char_width typed 7 3 ≡ some (row, col))
    × (byte_offset_at_display_pos char_width typed row col 3 ≡ 7)
byte_offset_at_display_pos-cursor_display_pos_example =
    byte_offset_at_display_pos-cursor_display_pos char_width 3 typed 7
      (split_at-IsBoundary 7 typed at_7)
      (refl, (refl, (refl, (refl, (refl, (refl, (refl, (refl, (refl, tt)))))))))

wrap_input_display-cursor_example :
    (row col : ℕ) × (cursor_display_pos char_width typed (len typed) 3 ≡ some (row, col))
    × (length (wrap_input_display char_width typed 3) ≡ row + 1)
wrap_input_display-cursor_example = wrap_input_display-cursor char_width 3 typed

wrap_input_display_lem_example :
    let rows = wrap_input_display char_width typed 3 in
    (concat_rows char_width 3 rows ≡ joined char_width 3 typed)
    × All (λ r. text_width char_width 3 r ≤ 3) rows
wrap_input_display_lem_example =
    wrap_input_display_lem char_width 3 typed (omega arith) (ground arith)

abbrev env : Env
env = record {
  char_width = char_width;
  to_json = λ p. "{}";
  online_users = "amy" ∷ "bob" ∷ [];
  daemon_users = "bob" ∷ "cyd" ∷ [];
  visible_count = 20;
  input_width = 40;
}

abbrev infos : List CommandInfo
infos =
    command_info "team" "Manage teams" "/team <action>"
      (record {
        name = "action";
        param_type = choice ("join" ∷ "leave" ∷ []);
        required = true;
        description = "What to do";
      }
        ∷ [])
      nil
    ∷ []

abbrev no_mods : Modifiers
no_mods = record { control = false; alt = false; shift = false }

-- Behind `/team `, with the choices open and a letter typed.
abbrev choosing : InputState
choosing = record {
  input = "/team l";
  cursor_pos = 7;
  input_row_scroll = 0;
  scroll_offset = 0;
  palette = record {
    active = false;
    selected = 0;
    filtered = 0 ∷ [];
    commands = (from_commands infos).commands;
  };
  mention = Mention.new;
  choice = record {
    picker = record { active = true; selected = 0; filtered = "leave" ∷ [] };
    all_choices = "join" ∷ "leave" ∷ [];
    cmd_name = "team";
    value_start = 6;
  };
}

choosing-IsValid : IsValid choosing
unfolding split_at len_utf8 from_commands
choosing-IsValid = record {
  cursor = refl;
  in_mention = λ on. absurd (ground (arith, on));
  in_choice = λ on. (omega arith, refl);
  one_picker = λ on. refl;
  has_commands = (refl, tt);
}

handle_key-Safe_example : Safe (handle_key env (char "e") no_mods choosing) (λ turn. IsValid turn.1)
unfolding goes_back
handle_key-Safe_example =
    handle_key-Safe env (char "e") no_mods choosing choosing-IsValid (λ on. refl)

home_then_char_panics_example :
    (handle_key env home no_mods choosing ≡ some (none, with_cursor 0 choosing))
    × (handle_char env "e" (with_cursor 0 choosing) ≡ none)
unfolding len_utf8
home_then_char_panics_example =
    home_then_char_panics env "e" no_mods choosing choosing-IsValid refl (omega arith)

abbrev slashed : InputState
slashed = record (new (from_commands infos)) {
  input = "/";
  cursor_pos = 1;
  palette = record (from_commands infos) { active = true };
}

slash : Reached (from_commands infos) slashed
unfolding handle_key handle_char_key handle_char insert_str split_at len_utf8 mention_after_char
    find_at_context slice split_last_at has_break palette_after_char ◌==◌ activate indices new
    from_commands goes_back
slash = press env (char "/") no_mods none start (λ on. refl) refl

keys_never_panic_example : is_some (handle_key env enter no_mods slashed) ≡ true
unfolding goes_back
keys_never_panic_example = keys_never_panic env infos enter no_mods slashed slash (λ on. refl)

announcements_read_back_example :
    (parse_kick_broadcast (kick_text "amy" "bob") ≡ some "bob")
    × (parse_status_broadcast (status_text "amy" "") ≡ some ("amy", ""))
    × (parse_status_broadcast (status_text "amy" "in a call") ≡ some ("amy", "in a call"))
unfolding is_empty_text status_text strip_suffix ◌==◌
announcements_read_back_example =
    announcements_read_back "amy" "bob" "in a call" refl refl refl refl
