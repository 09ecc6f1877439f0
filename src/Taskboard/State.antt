-- ===== src/Taskboard/State.antt =====
-- crates/room-plugin-taskboard/src/lib.rs: the plugin's state, its start from disk, and the sweep of
-- expired leases. The mutex makes each command one step.
use room.Base.{
  ℕ, String, ◌<>◌, Bool, ◌&&◌, Option, List, [], map, nat_eq, if◌then◌else◌, unwrap_or, is_empty,
  keep, ◌==◌,
}
use room.Taskboard.Task.{
  Task, LiveTask, Env, is_leased, new_live, is_expired, expire, load_tasks, save_tasks,
}

-- `storage` is what the file at `storage_path` holds, `none` where there is no file.
pub record TaskboardPlugin : Type 0 where
  pub board : List LiveTask
  pub storage : Option String
  pub lease_ttl : ℕ

abbrev pub tasks_of : List LiveTask → List Task
tasks_of = map (λ lt. lt.task)

-- `TaskboardPlugin::new`; the default time to live is 0
unfoldable pub new : Env → Option String → Option ℕ → TaskboardPlugin
new env file lease_ttl_secs = record {
  board = map (new_live env) (load_tasks env file);
  storage = file;
  lease_ttl = unwrap_or lease_ttl_secs 0;
}

-- The board is written out whole after a change, and an error of the write is ignored.
unfoldable pub commit : Env → TaskboardPlugin → List LiveTask → TaskboardPlugin
commit env tb board = record tb {
  board = board;
  storage = save_tasks env (tasks_of board) tb.storage;
}

unfoldable pub must_expire : Env → ℕ → LiveTask → Bool
must_expire env ttl lt = is_expired env ttl lt && is_leased lt.task.status

unfoldable pub sweep_task : Env → ℕ → LiveTask → LiveTask
unfolding must_expire
sweep_task env ttl lt = if must_expire env ttl lt then expire lt else lt

expired_label : LiveTask → String
expired_label lt = lt.task.id <> (" (was " <> (unwrap_or lt.task.assigned_to "" <> ")"))

-- The labels of the tasks that lose their lease, and the plugin after it.
unfoldable pub sweep_expired : Env → TaskboardPlugin → List String × TaskboardPlugin
unfolding sweep_task expired_label commit
sweep_expired env tb =
    if nat_eq tb.lease_ttl 0
    then ([], tb)
    else (let expired = map expired_label (keep (must_expire env tb.lease_ttl) tb.board) in
        let board = map (sweep_task env tb.lease_ttl) tb.board in
        (expired, if is_empty expired then record tb { board = board } else commit env tb board))

unfoldable pub swept : Env → TaskboardPlugin → TaskboardPlugin
swept env tb = (sweep_expired env tb).1

-- `|lt| lt.task.id == *task_id`
abbrev pub has_id : String → LiveTask → Bool
has_id id lt = lt.task.id == id
