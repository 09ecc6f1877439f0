-- ===== src/History/Resume.antt =====
-- The numbers of a room go on after a restart (crates/room-daemon/src/history.rs).
use mathlib.Core.Path.{subst}
use room.Base.{
  ℕ, ◌+◌, ◌^◌, ◌<◌, ◌≤◌, String, ◌≡◌, refl, sym, Option, none, some, List, [], ◌∷◌, arith, ltb,
  length, All, if◌then◌else◌, Option-cases, inl, inr,
}
use room.Protocol.Message.{Message, seq}
use room.Broker.Fanout.{Env}
use room.Broker.Sequence.{Sending, send_all, Numbered, send_all-Numbered}
use room.History.File.{load, max_seq, max_seq_from_history, new_channel}

-- One step of the loop over the messages.
larger : ℕ → Option ℕ → ℕ
larger max none = max
larger max (some n) = if ltb max n then n else max

larger_lem :
    (max : ℕ) (o : Option ℕ) → (max ≤ larger max o) × ((n : ℕ) → o ≡ some n → n ≤ larger max o)
unfolding larger
larger_lem max none = (omega arith, λ n e. ground arith)
larger_lem max (some k) = (ground arith, λ n e. ground arith)

module _ {J : Type 0} where
  -- The number of a message, if it has one, is at most `top`.
  abbrev pub UpTo : ℕ → Message J → Type 0
  UpTo top msg = (n : ℕ) → seq msg ≡ some n → n ≤ top

  max_seq-larger :
      (max : ℕ) (msg : Message J) (msgs : List (Message J))
      → max_seq max (msg ∷ msgs) ≡ max_seq (larger max (seq msg)) msgs
  unfolding max_seq larger
  max_seq-larger max msg msgs = elim (Option-cases (seq msg)) [
    | inl e ↦ rw (max_seq, e) refl
    | inr (n, e) ↦ rw (max_seq, e) refl
  ]

  max_seq-UpTo :
      (max : ℕ) (msgs : List (Message J))
      → (max ≤ max_seq max msgs) × All (UpTo (max_seq max msgs)) msgs
  max_seq-UpTo max [] = (unfold max_seq in omega arith, tt)
  max_seq-UpTo max (msg ∷ msgs) =
      let (le, all) = max_seq-UpTo (larger max (seq msg)) msgs in
      let (up, own) = larger_lem max (seq msg) in
      let same = max_seq-larger max msg msgs in
      (
        omega (arith, le, up, same),
        (
          λ n e. omega (arith, own n e, le, same),
          subst (λ top. All (UpTo top) msgs) (sym same) all,
        ),
      )

  -- A room that is started from its history numbers every message that is sent after that above every
  -- number in the history, and the new numbers are strictly increasing, while the counter does not
  -- reach 2^64.
  pub numbers_go_on :
      (env : Env J) (chat : Option String) (sendings : List (Sending J))
      → max_seq_from_history env chat + length sendings < 2 ^ 64
      → let last = max_seq_from_history env chat in
        let (sent, ch) = send_all sendings (new_channel env chat) in
        All (UpTo last) (load env chat) × Numbered last ch.seq_counter sent
  unfolding new_channel max_seq_from_history
  numbers_go_on env chat sendings h =
      ((max_seq-UpTo 0 (load env chat)).1, (send_all-Numbered sendings (new_channel env chat) h).0)
