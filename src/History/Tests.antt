-- ===== src/History/Tests.antt =====
-- The history on concrete messages.
use room.Base.{
  String, ◌≡◌, ◌+◌, ◌^◌, ◌<◌, refl, false, none, some, Option, List, [], ◌∷◌, ◌++◌, All, arith,
}
use room.Base.Text.Lines.{is_line, lines}
use room.Base.Text.Blank.{is_blank, is_whitespace}
use room.Base.Text.Codec.{IsEncoded, trimming, load_lines}
use room.Protocol.Message.{Message, message, set_seq, seq}
use room.Broker.Fanout.{Env, Channel, broadcast_and_persist, persist_and_send, append, next_seq}
use room.Broker.Sequence.{Sending, send_all, Numbered}
use room.History.File.{load, max_seq, max_seq_from_history, new_channel}
use room.History.Resume.{UpTo, numbers_go_on}
use room.History.Reload.{IsWhole, broadcast-load}

abbrev hello : Message (Unit {0})
hello = message "u1" "lobby" "alice" 50 none "hello"

abbrev numbered : Message (Unit {0})
numbered = message "u1" "lobby" "alice" 50 (some 1) "hello"

abbrev env : Env (Unit {0})
env = record {
  codec = record { encode = λ m. some "{}"; decode = λ s. some numbered };
  chat_fault = none;
}

abbrev channel : Channel
channel = record { host_user = none; clients = []; chat = none; seq_counter = 0 }

abbrev sendings : List (Sending (Unit {0}))
sendings = record { env = env; msg = hello; direct = false } ∷ []

-- The history holds one message, with the number 1.
abbrev chat : Option String
chat = some "{}\n"

last_is_one : max_seq_from_history env chat ≡ 1
unfolding max_seq_from_history load max_seq load_lines lines is_blank trimming seq
last_is_one = refl

few : max_seq_from_history env chat + 1 < 2 ^ 64
few = rw last_is_one (ground arith)

numbers_go_on_example :
    let last = max_seq_from_history env chat in
    let (sent, ch) = send_all sendings (new_channel env chat) in
    All (UpTo last) (load env chat) × Numbered last ch.seq_counter sent
numbers_go_on_example = numbers_go_on env chat sendings few

hello_sent : (broadcast_and_persist env hello channel).0 ≡ some numbered
unfolding broadcast_and_persist persist_and_send append next_seq set_seq
hello_sent = refl

numbered-IsEncoded : IsEncoded (trimming env.codec) numbered
unfolding trimming is_line is_blank is_whitespace
numbered-IsEncoded = ("{}", refl, refl, refl, refl)

broadcast-load_example :
    let after = (broadcast_and_persist env hello channel).1 in
    (load env after.chat ≡ load env channel.chat ++ (numbered ∷ [])) × IsWhole after.chat
unfolding IsWhole
broadcast-load_example = broadcast-load env channel hello numbered tt hello_sent numbered-IsEncoded
