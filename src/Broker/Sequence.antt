-- ===== src/Broker/Sequence.antt =====
-- The sequence numbers of a room (crates/room-daemon/src/broker/fanout.rs).
use mathlib.Core.Option.{some-injective}
use room.Base.{
  ℕ, suc, ◌+◌, ◌%◌, ◌^◌, ◌<◌, ◌≤◌, String, ◌≡◌, refl, sym, ap, ◌∙◌, Bool, Option, none, some, List,
  [], ◌∷◌, arith, length, if◌then◌else◌, Option-cases, Bool-cases, inl, inr,
}
use room.Protocol.Message.{Message, seq, set_seq, set_seq-fields}
use room.Broker.Fanout.{
  Env, Channel, append, next_seq, persist_and_send, broadcast_and_persist, dm_and_persist,
}

counter : (n k r : ℕ) → k ≡ (n + 1) % 2 ^ 64 → n + suc r < 2 ^ 64 → k ≡ n + 1
counter n k r e h = omega arith

-- A message to send, and whether to all or as a direct message.
pub record Sending (J : Type 0) : Type 0 where
  pub env : Env J
  pub msg : Message J
  pub direct : Bool

module _ {J : Type 0} where
  abbrev pub send_one : Sending J → Channel → Option (Message J) × Channel
  send_one s ch =
      if s.direct then dm_and_persist s.env s.msg ch else broadcast_and_persist s.env s.msg ch

  -- The messages sent, those that failed left out, and the channel in the end.
  unfoldable pub send_all : List (Sending J) → Channel → List (Message J) × Channel
  send_all [] ch = ([], ch)
  send_all (s ∷ rest) ch =
      let (sent, ch') = send_one s ch in
      let (later, ch'') = send_all rest ch' in
      (elim sent [ none ↦ later | some m ↦ m ∷ later ], ch'')

  -- The numbers are greater than `n`, strictly increasing, and at most `top`.
  abbrev pub Numbered : ℕ → ℕ → List (Message J) → Type 0
  Numbered n top [] = Unit
  Numbered n top (m ∷ ms) = (k : ℕ) × (seq m ≡ some k) × (n < k) × (k ≤ top) × Numbered k top ms

  Numbered-weaken :
      (n k top : ℕ) (ms : List (Message J)) → n ≤ k → Numbered k top ms → Numbered n top ms
  Numbered-weaken n k top [] le h = tt
  Numbered-weaken n k top (m ∷ ms) le (j, e, lt, up, rest) = (j, e, omega (arith, le, lt), up, rest)

  -- Either the send fails and uses a number up, or the message carries it.
  abbrev Sent : Channel → Option (Message J) × Channel → Type 0
  Sent ch (sent, ch') =
      (ch'.seq_counter ≡ (ch.seq_counter + 1) % 2 ^ 64)
      × ((m : Message J) → sent ≡ some m → seq m ≡ some ((ch.seq_counter + 1) % 2 ^ 64))

  persist_and_send-Sent :
      (reaches : Message J → String → Bool) (env : Env J) (msg : Message J) (ch : Channel)
      → Sent ch (persist_and_send reaches env msg ch)
  unfolding persist_and_send next_seq
  persist_and_send-Sent reaches env msg ch =
      elim (Option-cases (append env (set_seq ((ch.seq_counter + 1) % 2 ^ 64) msg) ch.chat).0) [
        | inl e ↦ rw (persist_and_send, e) (refl, λ m h. absurd (ground arith))
        | inr (l, e) ↦ rw (persist_and_send, e) (refl, λ m h. sent_number m h)
      ]
    where
      sent_number :
          (m : Message J)
          → some (set_seq ((ch.seq_counter + 1) % 2 ^ 64) msg) ≡ some m
          → seq m ≡ some ((ch.seq_counter + 1) % 2 ^ 64)
      sent_number m h =
          rw (← some-injective _ m h) (set_seq-fields ((ch.seq_counter + 1) % 2 ^ 64) msg "" none).0

  send_one-Sent : (s : Sending J) (ch : Channel) → Sent ch (send_one s ch)
  unfolding dm_and_persist broadcast_and_persist
  send_one-Sent s ch = elim (Bool-cases s.direct) [
    | inl e ↦ rw e (persist_and_send-Sent _ s.env s.msg ch)
    | inr e ↦ rw e (persist_and_send-Sent _ s.env s.msg ch)
  ]

  Numbered-cons :
      (n k top : ℕ) (sent : Option (Message J)) (later : List (Message J))
      → n < k
      → ((m : Message J) → sent ≡ some m → seq m ≡ some k)
      → k ≤ top
      → Numbered k top later
      → Numbered n top (elim sent [ none ↦ later | some m ↦ m ∷ later ])
  Numbered-cons n k top none later lt numbered le h = Numbered-weaken n k top later (omega arith) h
  Numbered-cons n k top (some m) later lt numbered le h = (k, numbered m refl, lt, le, h)

  -- While the counter does not reach 2^64, the numbers of the messages that are sent, in their order,
  -- are greater than the counter before and strictly increasing up to the counter in the end, which is
  -- one more for each attempt, failed or not.
  pub send_all-Numbered :
      (sendings : List (Sending J)) (ch : Channel)
      → ch.seq_counter + length sendings < 2 ^ 64
      → let (sent, ch') = send_all sendings ch in
        Numbered ch.seq_counter ch'.seq_counter sent
        × (ch'.seq_counter ≡ ch.seq_counter + length sendings)
  unfolding send_all
  send_all-Numbered [] ch h = (tt, omega arith)
  send_all-Numbered (s ∷ rest) ch h =
      let (counted, numbered) = send_one-Sent s ch in
      let next = counter ch.seq_counter _ (length rest) counted h in
      let (later, top) = send_all-Numbered rest (send_one s ch).1 (ground (arith, next, h)) in
      (
        Numbered-cons ch.seq_counter (send_one s ch).1.seq_counter _ (send_one s ch).0 _
            (omega (arith, next)) (λ m e. numbered m e ∙ ap some (sym counted)) (omega (arith, top))
            later,
        omega (arith, top, next),
      )
