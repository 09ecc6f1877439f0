-- ===== src/Agents/Cleanup.antt =====
-- crates/room-daemon/src/broker/agent_cleanup.rs. A file is `none` where it does not exist.
use room.Base.{
  ℕ, zero, suc, ◌+◌, ◌*◌, ◌%◌, ◌^◌, max, String, ◌<>◌, Bool, true, false, Option, none, some, List,
  [], ◌∷◌, ◌++◌, if◌then◌else◌, length, unwrap_or, is_empty,
}
use room.Base.Text.Codec.{Codec}
use room.Base.Text.Decimal.{to_decimal}

pub record AgentRecord : Type 0 where
  pub pid : ℕ
  pub username : String
  pub room_id : String
  pub spawned_at : ℕ

pub data TerminateResult : Type 0 where
  terminated killed already_dead : TerminateResult

pub record CleanupSummary : Type 0 where
  pub terminated : List String
  pub killed : List String
  pub already_dead : List String

abbrev pub empty_summary : CleanupSummary
empty_summary = record { terminated = []; killed = []; already_dead = [] }

unfoldable pub total : CleanupSummary → ℕ
total s = length s.terminated + length s.killed + length s.already_dead

-- An array that cannot be read or parsed counts as empty.
unfoldable pub load_agent_records : Codec (List AgentRecord) → Option String → List AgentRecord
load_agent_records c none = []
load_agent_records c (some s) = unwrap_or (c.decode s) []

-- Whether it succeeds, and the file after it. `fault` is `none` for a write that succeeds, and `some rest`
-- for one that leaves `rest` in the file.
unfoldable pub save_agent_records :
    Codec (List AgentRecord)
    → Option (Option String)
    → List AgentRecord
    → Option String
    → Bool × Option String
save_agent_records c fault records file = elim (c.encode records) [
  | none ↦ (false, file)
  | some s ↦ elim fault [ none ↦ (true, some s) | some rest ↦ (false, rest) ]
]

unfoldable pub remove_agent_state : Bool → Option String → Option String
remove_agent_state kept file = if kept then file else none

-- The operating system: its states, `kill(pid, 0)`, what the two signals do, and what happens while a
-- thread sleeps for some milliseconds.
pub record Os (W : Type 0) : Type 0 where
  pub pid_alive : ℕ → W → Bool
  pub send_sigterm : ℕ → W → W
  pub send_sigkill : ℕ → W → W
  pub sleep : ℕ → W → W

module _ {W : Type 0} (os : Os W) where
  -- The checks, one every 100 ms: whether one of them found the process gone.
  unfoldable pub wait_for_exit : ℕ → ℕ → W → Bool × W
  wait_for_exit zero pid w = (false, w)
  wait_for_exit (suc checks) pid w =
      let slept = os.sleep 100 w in
      let rest = wait_for_exit checks pid slept in
      if os.pid_alive pid slept then rest else (true, slept)

  -- In u64, of which one check at least.
  abbrev pub checks_of : ℕ → ℕ
  checks_of grace_secs = max ((grace_secs * 10) % 2 ^ 64) 1

  -- Both branches behind the last check give `Killed`.
  unfoldable pub terminate_process : ℕ → ℕ → W → TerminateResult × W
  unfolding wait_for_exit
  terminate_process pid grace_secs w =
      let (gone, waited) = wait_for_exit (checks_of grace_secs) pid (os.send_sigterm pid w) in
      if os.pid_alive pid w
      then if gone
        then (terminated, waited)
        else (killed, os.sleep 200 (os.send_sigkill pid waited))
      else (already_dead, w)

  unfoldable pub push : TerminateResult → String → CleanupSummary → CleanupSummary
  push terminated label s = record s { terminated = s.terminated ++ (label ∷ []) }
  push killed label s = record s { killed = s.killed ++ (label ∷ []) }
  push already_dead label s = record s { already_dead = s.already_dead ++ (label ∷ []) }

  abbrev pub label_of : AgentRecord → String
  label_of r = r.username <> (" (pid " <> (to_decimal r.pid <> ")"))

  -- The loop over the records, from the summary so far.
  unfoldable pub cleanup_loop : List AgentRecord → ℕ → CleanupSummary → W → CleanupSummary × W
  unfolding terminate_process push
  cleanup_loop [] grace_secs summary w = (summary, w)
  cleanup_loop (r ∷ records) grace_secs summary w =
      let (result, w') = terminate_process r.pid grace_secs w in
      cleanup_loop records grace_secs (push result (label_of r) summary) w'

  unfoldable pub cleanup_agents : List AgentRecord → ℕ → W → CleanupSummary × W
  unfolding cleanup_loop
  cleanup_agents records grace_secs w = cleanup_loop records grace_secs empty_summary w

  -- The summary, the file after it, and the system after it. `kept` is whether the file cannot be removed.
  unfoldable pub reap_orphans :
      Codec (List AgentRecord) → Bool → Option String → ℕ → W → CleanupSummary × Option String × W
  unfolding load_agent_records cleanup_agents remove_agent_state
  reap_orphans c kept file grace_secs w =
      let records = load_agent_records c file in
      let (summary, w') = cleanup_agents records grace_secs w in
      if is_empty records
      then (empty_summary, remove_agent_state kept file, w)
      else (summary, remove_agent_state kept file, w')
