-- ===== src/Broker/Fanout.antt =====
-- crates/room-daemon/src/broker/fanout.rs and `append` of crates/room-daemon/src/history.rs. `J` stands
-- for `serde_json::Value`.
use room.Base.{
  ℕ, ◌+◌, ◌%◌, ◌^◌, String, ◌<>◌, Bool, true, Option, none, some, List, [], ◌∷◌, ◌++◌,
  if◌then◌else◌, unwrap_or,
}
use room.Base.Text.Codec.{Codec}
use room.Protocol.Message.{Message, set_seq, is_visible_to}

-- A connected client: its user and the lines that were sent to it, in order.
pub record Client : Type 0 where
  pub username : String
  pub received : List String

-- What the two functions work on. `chat` is what the chat file holds.
pub record Channel : Type 0 where
  pub host_user : Option String
  pub clients : List Client
  pub chat : Option String
  pub seq_counter : ℕ

-- `serde_json` for messages, and what an append meets: `none` is success, and `some rest` an error that
-- leaves `rest` in the file.
pub record Env (J : Type 0) : Type 0 where
  pub codec : Codec (Message J)
  pub chat_fault : Option (Option String)

-- `fetch_add(1) + 1`, in u64
unfoldable pub next_seq : Channel → ℕ
next_seq ch = (ch.seq_counter + 1) % 2 ^ 64

-- Sends the line to the clients that `reaches` picks.
unfoldable pub deliver : (String → Bool) → String → List Client → List Client
deliver reaches line [] = []
deliver reaches line (c ∷ clients) =
    (if reaches c.username then record c { received = c.received ++ (line ∷ []) } else c)
    ∷ deliver reaches line clients

module _ {J : Type 0} where
  -- `history::append`: the line, and the file after it.
  unfoldable pub append : Env J → Message J → Option String → Option String × Option String
  append env msg chat = elim (env.codec.encode msg) [
    | none ↦ (none, chat)
    | some json ↦ elim env.chat_fault [
      | some rest ↦ (none, rest)
      | none ↦ (some (json <> "\n"), some (unwrap_or chat "" <> (json <> "\n")))
    ]
  ]

  -- The message with its number, or `none` for an error; the number is used up in either case.
  unfoldable pub persist_and_send :
      (Message J → String → Bool) → Env J → Message J → Channel → Option (Message J) × Channel
  persist_and_send reaches env msg ch =
      let numbered = set_seq (next_seq ch) msg in
      let (line, chat) = append env numbered ch.chat in
      elim line [
        | none ↦ (none, record ch { chat = chat; seq_counter = next_seq ch })
        | some l ↦ (
          some numbered,
          record ch {
            chat = chat;
            seq_counter = next_seq ch;
            clients = deliver (reaches numbered) l ch.clients;
          },
        )
      ]

  unfoldable pub broadcast_and_persist : Env J → Message J → Channel → Option (Message J) × Channel
  broadcast_and_persist env msg ch = persist_and_send (λ _ _. true) env msg ch

  unfoldable pub dm_and_persist : Env J → Message J → Channel → Option (Message J) × Channel
  dm_and_persist env msg ch =
      persist_and_send (λ m name. is_visible_to m name ch.host_user) env msg ch
