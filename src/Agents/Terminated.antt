-- ===== src/Agents/Terminated.antt =====
-- What becomes of a process (crates/room-daemon/src/broker/agent_cleanup.rs).
use room.Base.{
  ℕ, zero, suc, ◌+◌, ◌*◌, ◌≤◌, ◌<◌, ◌^◌, max, ◌≡◌, ◌⊎◌, inl, inr, refl, Bool, true, false, Option,
  none, some, List, [], ◌∷◌, arith, if◌then◌else◌, length, length-append, String, is_empty,
  Bool-cases,
}
use room.Base.Text.Codec.{Codec}
use room.Agents.Cleanup.{
  AgentRecord, TerminateResult, terminated, killed, already_dead, CleanupSummary, total, Os,
  load_agent_records, wait_for_exit, checks_of, terminate_process, push, label_of, cleanup_loop,
  cleanup_agents, empty_summary, save_agent_records, remove_agent_state, reap_orphans,
}

module _ {W : Type 0} (os : Os W) where
  wait_for_exit-gone :
      (checks pid : ℕ) (w : W)
      → (wait_for_exit os checks pid w).0 ≡ true
      → os.pid_alive pid (wait_for_exit os checks pid w).1 ≡ false
  unfolding wait_for_exit
  wait_for_exit-gone zero pid w e = ground (arith, e)
  wait_for_exit-gone (suc checks) pid w e =
      ground (arith, wait_for_exit-gone checks pid (os.sleep 100 w), e)

  wait_for_exit-alive :
      (checks pid : ℕ) (w : W)
      → 1 ≤ checks
      → (wait_for_exit os checks pid w).0 ≡ false
      → os.pid_alive pid (wait_for_exit os checks pid w).1 ≡ true
  unfolding wait_for_exit
  wait_for_exit-alive zero pid w some_check e = absurd (omega arith)
  wait_for_exit-alive (suc zero) pid w some_check e = ground (arith, e)
  wait_for_exit-alive (suc (suc checks)) pid w some_check e =
      let rest = wait_for_exit-alive (suc checks) pid (os.sleep 100 w) (omega arith) in
      ground (arith, rest, e)

  checks_of-bounds :
      (grace_secs : ℕ)
      → (1 ≤ checks_of os grace_secs) × (checks_of os grace_secs ≤ max (grace_secs * 10) 1)
  checks_of-bounds grace_secs = (omega arith, omega arith)

  -- What has a clock that is never turned back, and that sleeps move on by the time they are asked for at
  -- least.
  pub record Clock (now : W → ℕ) : Type 0 where
    pub slept : (ms : ℕ) (w : W) → now w + ms ≤ now (os.sleep ms w)
    pub at_sigterm : (pid : ℕ) (w : W) → now w ≤ now (os.send_sigterm pid w)
    pub at_sigkill : (pid : ℕ) (w : W) → now w ≤ now (os.send_sigkill pid w)

  wait_for_exit-waits :
      (now : W → ℕ)
      → Clock now
      → (checks pid : ℕ) (w : W) → (wait_for_exit os checks pid w).0 ≡ false
      → now w + 100 * checks ≤ now (wait_for_exit os checks pid w).1
  unfolding wait_for_exit
  wait_for_exit-waits now c zero pid w e = omega arith
  wait_for_exit-waits now c (suc checks) pid w e =
      let rest = wait_for_exit-waits now c checks pid (os.sleep 100 w) in
      let slept = c.slept 100 w in
      elim (Bool-cases (os.pid_alive pid (os.sleep 100 w))) [
        | inl alive ↦
            let e' = rw (wait_for_exit, alive) at e in
            rw (wait_for_exit, alive) (omega (arith, rest e', slept))
        | inr dead ↦ absurd (ground (arith, e, dead))
      ]

  -- What each result promises, where the clock is never turned back, sleeps take as long as they are asked
  -- to at least, and ten times the grace period in seconds is below 2^64: a process that was dead before
  -- gets no signal, and nobody waits for it; one that is reported as terminated is dead in the end; and
  -- one that is reported as killed was alive before, had the whole grace period after its SIGTERM and
  -- 100 ms at least, was still alive then, and got a SIGKILL, after which 200 ms passed.
  pub terminate_process-waits :
      (now : W → ℕ)
      → Clock now
      → (pid grace_secs : ℕ) (w : W) → grace_secs * 10 < 2 ^ 64
      → let (result, after) = terminate_process os pid grace_secs w in
        ((result ≡ already_dead) × (os.pid_alive pid w ≡ false) × (after ≡ w))
        ⊎ (((result ≡ terminated) × (os.pid_alive pid w ≡ true) × (os.pid_alive pid after ≡ false))
            ⊎ ((result ≡ killed)
                × (os.pid_alive pid w ≡ true)
                × (waited : W) × (os.pid_alive pid waited ≡ true)
                × (after ≡ os.sleep 200 (os.send_sigkill pid waited))
                × (now (os.send_sigterm pid w) + max (grace_secs * 1000) 100 ≤ now waited)
                × (now waited + 200 ≤ now after)))
  unfolding terminate_process
  terminate_process-waits now c pid grace_secs w small =
      let checks = checks_of os grace_secs in
      let termed = os.send_sigterm pid w in
      let waited = (wait_for_exit os checks pid termed).1 in
      let whole : max (grace_secs * 1000) 100 ≤ 100 * checks = omega (arith, small) in
      elim (Bool-cases (os.pid_alive pid w)) [
        | inr dead ↦ inl (rw (terminate_process, dead) (refl, refl, refl))
        | inl alive ↦ elim (Bool-cases (wait_for_exit os checks pid termed).0) [
          | inl gone ↦
              let dead = wait_for_exit-gone checks pid termed gone in
              inr (inl (rw (terminate_process, alive, gone) (refl, refl, dead)))
          | inr stays ↦
              let still = wait_for_exit-alive checks pid termed (omega arith) stays in
              let long = wait_for_exit-waits now c checks pid termed stays in
              let shot = c.at_sigkill pid waited in
              let slept = c.slept 200 (os.send_sigkill pid waited) in
              inr (
                inr (
                  rw (terminate_process, alive, stays)
                    (
                      refl,
                      refl,
                      waited,
                      still,
                      refl,
                      omega (arith, long, whole),
                      omega (arith, shot, slept),
                    )))
        ]
      ]

  push-total :
      (result : TerminateResult) (label : String) (s : CleanupSummary)
      → total (push os result label s) ≡ suc (total s)
  unfolding push total
  push-total terminated label s = omega (arith, length-append s.terminated (label ∷ []))
  push-total killed label s = omega (arith, length-append s.killed (label ∷ []))
  push-total already_dead label s = omega (arith, length-append s.already_dead (label ∷ []))

  cleanup_loop-total :
      (records : List AgentRecord) (grace_secs : ℕ) (s : CleanupSummary) (w : W)
      → total (cleanup_loop os records grace_secs s w).0 ≡ total s + length records
  unfolding cleanup_loop
  cleanup_loop-total [] grace_secs s w = omega arith
  cleanup_loop-total (r ∷ records) grace_secs s w =
      let (result, w') = terminate_process os r.pid grace_secs w in
      omega (
        arith,
        cleanup_loop-total records grace_secs (push os result (label_of os r) s) w',
        push-total result (label_of os r) s,
      )

  -- A reap without its branch for an empty file.
  reaped : List AgentRecord → ℕ → Option String → W → CleanupSummary × Option String × W
  reaped records grace_secs file w =
      let (summary, after) = cleanup_agents os records grace_secs w in (summary, file, after)

  either_reaped :
      (records : List AgentRecord) (grace_secs : ℕ) (file : Option String) (w : W)
      → (if◌then◌else◌ {A = CleanupSummary × Option String × W}
          (is_empty records)
          (empty_summary, file, w)
          (reaped records grace_secs file w))
        ≡ reaped records grace_secs file w
  unfolding reaped cleanup_agents cleanup_loop
  either_reaped [] grace_secs file w = refl
  either_reaped (r ∷ records) grace_secs file w = refl

  reap_orphans-reaped :
      (c : Codec (List AgentRecord)) (kept : Bool) (file : Option String) (grace_secs : ℕ) (w : W)
      → reap_orphans os c kept file grace_secs w
        ≡ reaped (load_agent_records c file) grace_secs (remove_agent_state kept file) w
  unfolding reap_orphans reaped
  reap_orphans-reaped c kept file grace_secs w =
      either_reaped (load_agent_records c file) grace_secs (remove_agent_state kept file) w

  -- Records that were saved without an error, and that `serde_json` reads back from their text, are all
  -- accounted for in the summary when the file is reaped, and the file is gone afterwards where it can be
  -- removed.
  pub reap_orphans-total :
      (c : Codec (List AgentRecord)) (kept : Bool) (file : Option String) (grace_secs : ℕ) (w : W)
      (records : List AgentRecord) (s : String)
      → c.encode records ≡ some s
      → c.decode s ≡ some records
      → let saved = save_agent_records c none records file in
        let (summary, file', after) = reap_orphans os c kept saved.1 grace_secs w in
        (saved.0 ≡ true)
        × (total summary ≡ length records)
        × (file' ≡ (if kept then saved.1 else none))
  unfolding reaped cleanup_agents total save_agent_records load_agent_records remove_agent_state
  reap_orphans-total c kept file grace_secs w records s e d =
      let all = cleanup_loop-total records grace_secs empty_summary w in
      let whole = reap_orphans-reaped c kept (some s) grace_secs w in
      rw (save_agent_records, e, whole, load_agent_records, d) (refl, omega (arith, all), refl)
