-- ===== src/History/File.antt =====
-- `load`, `tail` and `max_seq_from_history` of crates/room-daemon/src/history.rs, and the start of a room
-- from its history (`RoomState::new` of broker/state.rs). `append` stands with the fanout. `J` stands for
-- `serde_json::Value`; a file is `none` where it does not exist.
use room.Base.{ℕ, ◌-◌, String, Option, none, some, List, [], ◌∷◌, if◌then◌else◌, ltb, length, drop}
use room.Base.Text.Codec.{trimming, load_lines}
use room.Protocol.Message.{Message, seq}
use room.Broker.Fanout.{Env, Channel}

module _ {J : Type 0} where
  unfoldable pub load : Env J → Option String → List (Message J)
  load env none = []
  load env (some raw) = load_lines (trimming env.codec) raw

  -- The last `n` messages.
  unfoldable pub tail : Env J → Option String → ℕ → List (Message J)
  unfolding load
  tail env chat n = let all = load env chat in drop (length all - n) all

  -- The loop over the messages; `max` is the largest number so far.
  unfoldable pub max_seq : ℕ → List (Message J) → ℕ
  max_seq max [] = max
  max_seq max (msg ∷ msgs) =
      max_seq (elim (seq msg) [ none ↦ max | some n ↦ if ltb max n then n else max ]) msgs

  unfoldable pub max_seq_from_history : Env J → Option String → ℕ
  max_seq_from_history env chat = max_seq 0 (load env chat)

  -- The channel of a room that is started: nobody is connected, and the numbers go on.
  unfoldable pub new_channel : Env J → Option String → Channel
  new_channel env chat = record {
    host_user = none;
    clients = [];
    chat = chat;
    seq_counter = max_seq_from_history env chat;
  }
