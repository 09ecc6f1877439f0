-- ===== src/Tui/Widgets/Mention.antt =====
-- `MentionPicker` of crates/room-cli/src/tui/widgets.rs.
use room.Base.{
  ℕ, String, Bool, true, false, not, ◌&&◌, Option, List, [], ◌∷◌, ◌++◌, if◌then◌else◌, leb, ◌==◌,
  any, length,
}
use room.Tui.Widgets.{
  PickerState, lower_codes, codes, is_prefix, starting_with, with_filtered, selected_item,
}

pub record MentionPicker : Type 0 where
  pub picker : PickerState
  pub at_byte : ℕ
  pub cross_room_start : ℕ

abbrev pub new : MentionPicker
new = record {
  picker = record { active = false; selected = 0; filtered = [] };
  at_byte = 0;
  cross_room_start = 0;
}

-- The loop over `daemon_users`: who matches is pushed, unless it is in the list.
unfoldable pub push_new : String → List String → List String → List String
unfolding is_prefix codes
push_new query combined [] = combined
push_new query combined (u ∷ users) =
    push_new query
      (if is_prefix (lower_codes query) (lower_codes u) && not (any (λ e. e == u) combined)
        then combined ++ (u ∷ [])
        else combined)
      users

unfoldable pub update_filter : List String → List String → String → MentionPicker → MentionPicker
unfolding starting_with push_new with_filtered
update_filter online_users daemon_users query m =
    let in_room = starting_with query online_users in
    record m {
      cross_room_start = length in_room;
      picker = with_filtered (push_new query in_room daemon_users) m.picker;
    }

unfoldable pub activate : ℕ → List String → List String → String → MentionPicker → MentionPicker
unfolding update_filter
activate at_byte online_users daemon_users query m =
    update_filter online_users daemon_users query
      (record m { picker = record m.picker { active = true; selected = 0 }; at_byte = at_byte })

unfoldable pub is_cross_room : ℕ → MentionPicker → Bool
is_cross_room index m = leb m.cross_room_start index

unfoldable pub selected_user : MentionPicker → Option String
unfolding selected_item
selected_user m = selected_item m.picker

-- What `Deref` reaches.
abbrev pub is_active : MentionPicker → Bool
is_active m = m.picker.active

abbrev pub on_picker : (PickerState → PickerState) → MentionPicker → MentionPicker
on_picker f m = record m { picker = f m.picker }
