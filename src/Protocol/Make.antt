-- ===== src/Protocol/Make.antt =====
-- The constructors of messages and `parse_client_line` of crates/room-protocol/src/lib.rs. A message is
-- stamped with a fresh UUID and the time.
use Prim.Native.Char.{code}
use room.Base.{ℕ, String, Bool, false, Option, none, some, List, nat_eq, if◌then◌else◌}
use room.Protocol.Message.{
  Message, join, leave, message as plain, reply as answer, command as command_line, system,
  direct_message,
}

pub record Stamp : Type 0 where
  pub uuid : String
  pub utc : ℕ

module _ {J : Type 0} (stamp : Stamp) (room user : String) where
  abbrev pub make_join : Message J
  make_join = join stamp.uuid room user stamp.utc none

  abbrev pub make_leave : Message J
  make_leave = leave stamp.uuid room user stamp.utc none

  abbrev pub make_message : String → Message J
  make_message content = plain stamp.uuid room user stamp.utc none content

  abbrev pub make_reply : String → String → Message J
  make_reply reply_to content = answer stamp.uuid room user stamp.utc none reply_to content

  abbrev pub make_command : String → List String → Message J
  make_command cmd params = command_line stamp.uuid room user stamp.utc none cmd params

  abbrev pub make_system : String → Message J
  make_system content = system stamp.uuid room user stamp.utc none content none

  abbrev pub make_dm : String → String → Message J
  make_dm to content = direct_message stamp.uuid room user stamp.utc none to content

-- `Envelope`
pub data Envelope : Type 0 where
  message : (content : String) → Envelope
  reply : (reply_to content : String) → Envelope
  command : (cmd : String) (params : List String) → Envelope
  dm : (to content : String) → Envelope

abbrev is_object : String → Bool
is_object String.[] = false
is_object (String.◌∷◌ c s) = nat_eq (code c) b'{'

module _ {J : Type 0} (stamp : Stamp) (room user : String) where
  abbrev pub of_envelope : Envelope → Message J
  of_envelope (Envelope.message content) = make_message stamp room user content
  of_envelope (Envelope.reply reply_to content) = make_reply stamp room user reply_to content
  of_envelope (Envelope.command cmd params) = make_command stamp room user cmd params
  of_envelope (Envelope.dm to content) = make_dm stamp room user to content

  -- `from_str` is `serde_json::from_str` for an `Envelope`.
  unfoldable pub parse_client_line : (String → Option Envelope) → String → Option (Message J)
  parse_client_line from_str raw =
      if is_object raw
      then elim (from_str raw) [ none ↦ none | some env ↦ some (of_envelope env) ]
      else some (make_message stamp room user raw)
