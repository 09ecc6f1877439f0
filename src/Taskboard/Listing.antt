-- ===== src/Taskboard/Listing.antt =====
-- The handlers of crates/room-plugin-taskboard/src/handlers.rs that only show the board, each after
-- its sweep of expired leases. A column is padded to its width; a long description is cut.
use Prim.Native.String.{count}
use room.Base.{
  ℕ, ◌/◌, String, ◌<>◌, Bool, false, not, Option, none, some, List, [], ◌∷◌, ◌++◌, map,
  if◌then◌else◌, is_some_of, is_some, unwrap_or, is_empty, keep, any, find, get_elem?, ltb,
}
use room.Base.Text.{join, pad_right, take_chars}
use room.Base.Text.Decimal.{to_decimal}
use room.Taskboard.Task.{awaiting_review, LiveTask, Env, show_status, elapsed_secs}
use room.Taskboard.State.{TaskboardPlugin, sweep_expired, swept, has_id}
use room.Taskboard.Reply.{Reply, usage, not_found, listing}
use room.Taskboard.Verdict.{CommandContext, is_status, is_closed}

unfoldable pub show_elapsed : Env → Option ℕ → String
unfolding elapsed_secs
show_elapsed env none = "-"
show_elapsed env (some start) =
    let secs = elapsed_secs env start in
    if ltb secs 60 then to_decimal secs <> "s" else to_decimal (secs / 60) <> "m"

-- At most 40 characters: of a longer description the first 37 and three dots.
unfoldable pub shorten : String → String
shorten description =
    if ltb 40 (count description) then take_chars 37 description <> "..." else description

-- Columns of the given widths, then the last one with no padding.
unfoldable pub row : List (ℕ × String) → String → String
unfolding pad_right
row [] last = last
row ((width, cell) ∷ cells) last = pad_right width cell <> (" " <> row cells last)

list_row : Env → Bool → LiveTask → String
list_row env has_teams lt =
    row
      ((8, lt.task.id)
        ∷ ((10, show_status lt.task.status)
            ∷ ((12, unwrap_or lt.task.assigned_to "-")
                ∷ ((if has_teams then (10, unwrap_or lt.task.team "-") ∷ [] else [])
                    ++ ((12, show_elapsed env lt.lease_start) ∷ [])))))
      (shorten lt.task.description)

list_header : Bool → String
list_header has_teams =
    row
      ((8, "ID")
        ∷ ((10, "STATUS")
            ∷ ((12, "ASSIGNEE")
                ∷ ((if has_teams then (10, "TEAM") ∷ [] else []) ++ ((12, "ELAPSED") ∷ [])))))
      "DESCRIPTION"

-- Finished and cancelled tasks are hidden unless all are asked for.
unfoldable pub visible : Bool → List LiveTask → List LiveTask
visible show_all board =
    if show_all then board else keep (λ lt. not (is_closed lt.task.status)) board

expired_line : List String → List String
expired_line expired = if is_empty expired then [] else ("expired: " <> join ", " expired) ∷ []

unfoldable pub list_text : Env → List String → Bool → List LiveTask → String
unfolding visible list_row list_header expired_line
list_text env expired show_all board =
    let shown = visible show_all board in
    let has_teams = any (λ lt. is_some lt.task.team) shown in
    if is_empty board
    then "taskboard is empty"
    else if is_empty shown
    then "no active tasks (use /taskboard list all to see finished/cancelled)"
    else join "\n"
        (expired_line expired ++ (list_header has_teams ∷ map (list_row env has_teams) shown))

unfoldable pub handle_list : Env → TaskboardPlugin → Bool → Reply × Bool × TaskboardPlugin
unfolding list_text
handle_list env tb show_all =
    let (expired, tb') = sweep_expired env tb in
    (listing (list_text env expired show_all tb'.board), false, tb')

-- A header and a row for each task, or what is said where there is none.
unfoldable pub table : String → String → (LiveTask → String) → List LiveTask → String
table none_text header show lts =
    if is_empty lts then none_text else join "\n" (header ∷ map show lts)

-- A listing of the tasks that pass `p`, after the sweep.
show_table :
    Env
    → TaskboardPlugin
    → (LiveTask → Bool)
    → String
    → String
    → (LiveTask → String)
    → Reply × Bool × TaskboardPlugin
unfolding table
show_table env tb p none_text header show =
    let tb' = swept env tb in (listing (table none_text header show (keep p tb'.board)), false, tb')

mine_row : Env → LiveTask → String
mine_row env lt =
    row
      ((8, lt.task.id)
        ∷ ((10, show_status lt.task.status) ∷ ((12, show_elapsed env lt.lease_start) ∷ [])))
      (shorten lt.task.description)

unfoldable pub handle_mine : Env → TaskboardPlugin → CommandContext → Reply × Bool × TaskboardPlugin
unfolding show_table mine_row
handle_mine env tb ctx =
    show_table env tb (λ lt. is_some_of lt.task.assigned_to ctx.sender)
      ("no tasks assigned to " <> ctx.sender)
      (row ((8, "ID") ∷ ((10, "STATUS") ∷ ((12, "ELAPSED") ∷ []))) "DESCRIPTION") (mine_row env)

history_row : LiveTask → String
history_row lt =
    row
      ((8, lt.task.id)
        ∷ ((10, show_status lt.task.status) ∷ ((12, unwrap_or lt.task.assigned_to "-") ∷ [])))
      (shorten lt.task.description)

unfoldable pub handle_history : Env → TaskboardPlugin → Reply × Bool × TaskboardPlugin
unfolding show_table history_row
handle_history env tb =
    show_table env tb (λ lt. is_closed lt.task.status) "no completed tasks"
      (row ((8, "ID") ∷ ((10, "STATUS") ∷ ((12, "ASSIGNEE") ∷ []))) "DESCRIPTION") history_row

qa_row : Env → LiveTask → String
qa_row env lt =
    row
      ((8, lt.task.id)
        ∷ ((12, unwrap_or lt.task.assigned_to "-") ∷ ((12, show_elapsed env lt.lease_start) ∷ [])))
      (shorten lt.task.description)

unfoldable pub handle_qa_queue : Env → TaskboardPlugin → Reply × Bool × TaskboardPlugin
unfolding show_table qa_row
handle_qa_queue env tb =
    show_table env tb (λ lt. is_status lt.task.status awaiting_review) "no tasks awaiting review"
      (row ((8, "ID") ∷ ((12, "ASSIGNEE") ∷ ((12, "ELAPSED") ∷ []))) "DESCRIPTION") (qa_row env)

show_task : Env → LiveTask → String
show_task env lt =
    "task "
    <> (lt.task.id
        <> ("\n  status:      "
            <> (show_status lt.task.status
                <> ("\n  description: "
                    <> (lt.task.description
                        <> ("\n  posted by:   "
                            <> (lt.task.posted_by
                                <> ("\n  assigned to: "
                                    <> (unwrap_or lt.task.assigned_to "-"
                                        <> ("\n  team:        "
                                            <> (unwrap_or lt.task.team "-"
                                                <> ("\n  plan:        "
                                                    <> (unwrap_or lt.task.plan "-"
                                                        <> ("\n  approved by: "
                                                            <> (unwrap_or lt.task.approved_by "-"
                                                            <> ("\n  notes:       "
                                                            <> (unwrap_or lt.task.notes "-"
                                                            <> ("\n  lease:       "
                                                            <> show_elapsed env
                                                            lt.lease_start))))))))))))))))))

unfoldable pub handle_show : Env → TaskboardPlugin → CommandContext → Reply × Bool × TaskboardPlugin
unfolding show_task
handle_show env tb ctx = elim (get_elem? ctx.params 1) [
  | none ↦ (usage "show <task-id>", false, tb)
  | some id ↦
      let tb' = swept env tb in
      elim (find (has_id id) tb'.board) [
        | none ↦ (not_found id, false, tb')
        | some lt ↦ (listing (show_task env lt), false, tb')
      ]
]
