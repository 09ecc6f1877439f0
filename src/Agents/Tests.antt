-- ===== src/Agents/Tests.antt =====
-- Agents on a concrete system.
use room.Base.{ℕ, ◌+◌, ◌*◌, ◌≤◌, max, ◌≡◌, ◌⊎◌, Bool, true, false, arith, nat_eq, if◌then◌else◌}
use room.Agents.Cleanup.{Os, terminate_process, terminated, killed, already_dead}
use room.Agents.Terminated.{Clock, terminate_process-waits}

-- One process that ignores SIGTERM: the time, and whether it lives.
abbrev System : Type 0
System = ℕ × Bool

abbrev os : Os System
os = record {
  pid_alive = λ pid w. if nat_eq pid 7 then w.1 else false;
  send_sigterm = λ pid w. w;
  send_sigkill = λ pid w. (w.0, if nat_eq pid 7 then false else w.1);
  sleep = λ ms w. (w.0 + ms + 1, w.1);
}

abbrev start : System
start = (1000, true)

now : System → ℕ
now w = w.0

clock : Clock os now
unfolding now
clock = record {
  slept = λ ms w. omega arith;
  at_sigterm = λ pid w. omega arith;
  at_sigkill = λ pid w. omega arith;
}

terminate_process-waits_example :
    let (result, after) = terminate_process os 7 2 start in
    ((result ≡ already_dead) × (os.pid_alive 7 start ≡ false) × (after ≡ start))
    ⊎ (((result ≡ terminated) × (os.pid_alive 7 start ≡ true) × (os.pid_alive 7 after ≡ false))
        ⊎ ((result ≡ killed)
            × (os.pid_alive 7 start ≡ true)
            × (waited : System) × (os.pid_alive 7 waited ≡ true)
            × (after ≡ os.sleep 200 (os.send_sigkill 7 waited))
            × (now (os.send_sigterm 7 start) + max (2 * 1000) 100 ≤ now waited)
            × (now waited + 200 ≤ now after)))
terminate_process-waits_example = terminate_process-waits os now clock 7 2 start (omega arith)
