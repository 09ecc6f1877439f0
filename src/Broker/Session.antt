-- ===== src/Broker/Session.antt =====
-- crates/room-daemon/src/broker/session.rs: what both transports do with a session. Plugins that are
-- notified do not change the room.
pub mod Mentions
pub mod Outsiders
mod Tests
use room.Base.{
  ℕ, zero, suc, ◌+◌, ◌-◌, String, ◌<>◌, Bool, true, false, not, ◌&&◌, Option, none, some, List, [],
  ◌∷◌, if◌then◌else◌, is_empty, is_some, keep, ◌==◌,
}
use room.Base.Dict.{Dict, get, insert, remove, any_value}
use room.Base.Text.Codec.{encode_all}
use room.Protocol.Events.{SubscriptionTier, mentions_only, unsubscribed}
use room.Protocol.Make.{Envelope, make_join, make_leave, make_system, parse_client_line}
use room.Protocol.Message.{Message, mentions, is_visible_to, is_direct_message}
use room.Registry.State.{ok, err}
use room.History.File.{load}
use room.Broker.Auth.{check_send_permission}
use room.Broker.Fanout.{Client, dm_and_persist}
use room.Broker.Admin.{RoomState}
use room.Broker.Room.{
  Room, Env, with_state, with_subscriptions, record_last_message, persist_subscriptions, broadcast,
}
use room.Broker.Commands.Status.{
  CommandResult, handled, shutdown, handled_with_reply, reply, passthrough, Outcome, reply_with,
}
use room.Broker.Commands.Route.{Host, route_command}

pub data InboundResult : Type 0 where
  nothing stop : InboundResult
  answer : (json : String) → InboundResult

-- `clients` by `cid`, which is a client's place: the name of an entry that is there.
unfoldable pub set_username : ℕ → String → List Client → List Client
set_username cid username [] = []
set_username zero username (c ∷ clients) = record c { username = username } ∷ clients
set_username (suc cid) username (c ∷ clients) = c ∷ set_username cid username clients

-- What the session meets besides: the room's meta file with the host put in, `none` where it is no JSON;
-- what its write meets; the envelope of a client's line; the texts of errors.
pub record Wire : Type 0 where
  pub with_host : String → String → Option String
  pub meta_fault : Option (Option String)
  pub envelope : String → Option Envelope
  pub error_json : (code message : String) → String
  pub parse_error : String → String
  pub route_error : String

-- The first one to complete the handshake is the host.
unfoldable pub elect_host : Wire → String → Room → Room
elect_host wire username room = elim room.state.channel.host_user [
  | some h ↦ room
  | none ↦
      let elected =
        with_state
          (record room.state { channel = record room.state.channel { host_user = some username } })
          room in
      elim room.meta_file [
        | none ↦ elected
        | some json ↦ elim (wire.with_host username json) [
          | none ↦ elected
          | some json' ↦ elim wire.meta_fault [
            | none ↦ record elected { meta_file = some json' }
            | some rest ↦ record elected { meta_file = rest }
          ]
        ]
      ]
]

-- Who has no subscription, or has given it up.
abbrev pub is_dominated : Option SubscriptionTier → Bool
is_dominated none = true
is_dominated (some unsubscribed) = true
is_dominated (some _) = false

abbrev pub is_registered : Dict String → String → Bool
is_registered token_map username = any_value (λ u. u == username) token_map

-- The loop over the mentioned users: the subscriptions, and who was subscribed.
unfoldable pub subscribe_each :
    Dict String → List String → Dict SubscriptionTier → Dict SubscriptionTier × List String
subscribe_each token_map [] subs = (subs, [])
subscribe_each token_map (username ∷ mentioned) subs =
    let skipped = subscribe_each token_map mentioned subs in
    let subscribed = subscribe_each token_map mentioned (insert username mentions_only subs) in
    if is_registered token_map username && is_dominated (get username subs)
    then (subscribed.0, username ∷ subscribed.1)
    else skipped

module _ {J : Type 0} (env : Env J) where
  unfoldable pub session_teardown : String → Room → Room
  unfolding broadcast
  session_teardown username room =
      let offline =
        with_state (record room.state { status_map = remove username room.state.status_map })
          room in
      (broadcast env (make_leave (env.stamps 0) room.state.room_id username) offline).1

  unfoldable pub subscribe_mentioned : Message J → Room → List String × Room
  unfolding mentions subscribe_each persist_subscriptions
  subscribe_mentioned msg room =
      let (subs, newly) =
        subscribe_each room.state.auth.token_map (mentions env.alphanumeric msg)
          room.state.auth.subscription_map in
      (
        newly,
        if is_empty newly then room else persist_subscriptions env (with_subscriptions subs room),
      )

  -- The notices, stamped from the number `n` on; their errors are dropped.
  unfoldable pub broadcast_subscribe_notices : ℕ → List String → Room → Room
  unfolding broadcast
  broadcast_subscribe_notices n [] room = room
  broadcast_subscribe_notices n (username ∷ newly) room =
      let notice = make_system (env.stamps n) room.state.room_id "broker" (
        username
        <> (" auto-subscribed at mentions_only (mentioned in " <> (room.state.room_id <> ")"))) in
      broadcast_subscribe_notices (n + 1) newly (broadcast env notice room).1

  -- `dm_and_persist` for a direct message, and `broadcast_and_persist` for others
  unfoldable pub send : Message J → Room → Option (Message J) × Room
  unfolding dm_and_persist broadcast is_direct_message
  send msg room =
      if is_direct_message msg
      then (let (sent, channel) = dm_and_persist env.admin.fanout msg room.state.channel in
          (sent, with_state (record room.state { channel = channel }) room))
      else broadcast env msg room

  -- The message, and around it the subscriptions of the users that it mentions and their notices.
  unfoldable pub deliver_message : Message J → Room → Option (Message J) × Room
  unfolding subscribe_mentioned send broadcast_subscribe_notices is_direct_message
  deliver_message msg room =
      let (newly, subscribed) =
        if is_direct_message msg then ([], room) else subscribe_mentioned msg room in
      let (sent, after) = send msg subscribed in
      (sent, if is_some sent then broadcast_subscribe_notices 2 newly after else after)

module _ {J : Type 0} (wire : Wire) (env : Env J) where
  -- The lines of the history that the client may see, or `none` for an error, and the room.
  unfoldable pub session_setup : ℕ → String → Room → Option (List String) × Room
  unfolding set_username elect_host load encode_all broadcast
  session_setup cid username room =
      let named =
        with_state
          (record room.state {
            channel = record room.state.channel {
              clients = set_username cid username room.state.channel.clients;
            };
          })
          room in
      let elected = elect_host wire username named in
      let online =
        with_state
          (record elected.state { status_map = insert username "" elected.state.status_map })
          elected in
      let visible =
        keep (λ m. is_visible_to m username online.state.channel.host_user)
          (load env.admin.fanout online.state.channel.chat) in
      elim (encode_all env.admin.fanout.codec visible) [
        | none ↦ (none, online)
        | some lines ↦
            let (sent, joined) =
              broadcast env (make_join (env.stamps 0) online.state.room_id username) online in
            (if is_some sent then some lines else none, joined)
      ]

  unfoldable pub process_passthrough : Message J → String → Room → InboundResult × Room
  unfolding record_last_message check_send_permission deliver_message
  process_passthrough msg username room =
      let seen = with_state (record_last_message env.admin.utc username room.state) room in
      elim (check_send_permission username room.config) [
        | err reason ↦ (answer (wire.error_json "send_denied" reason), seen)
        | ok _ ↦ (nothing, (deliver_message env msg seen).1)
      ]

  -- The answer to a one-shot sender, or `none` for an error.
  unfoldable pub send_oneshot : Message J → String → Room → Option String × Room
  unfolding check_send_permission deliver_message
  send_oneshot msg username room = elim (check_send_permission username room.config) [
    | err reason ↦ (some (wire.error_json "send_denied" reason), room)
    | ok _ ↦
        let (sent, after) = deliver_message env msg room in
        elim sent [ none ↦ (none, after) | some m ↦ (env.admin.fanout.codec.encode m, after) ]
  ]

module _ {J : Type 0} (wire : Wire) (host : Host J) (env : Env J) where
  unfoldable pub process_inbound_message : String → String → Room → InboundResult × Room
  unfolding parse_client_line route_command process_passthrough
  process_inbound_message trimmed username room =
      elim (parse_client_line (env.stamps 1) room.state.room_id username wire.envelope trimmed) [
        | none ↦ (nothing, room)
        | some msg ↦
            let (result, routed) = route_command host env msg username room in
            elim result [
              | none ↦ (nothing, routed)
              | some handled ↦ (nothing, routed)
              | some (handled_with_reply json) ↦ (nothing, routed)
              | some (reply json) ↦ (answer json, routed)
              | some shutdown ↦ (stop, routed)
              | some (passthrough m) ↦ process_passthrough wire env m username routed
            ]
      ]

  unfoldable pub process_oneshot_send : String → String → Room → Option String × Room
  unfolding parse_client_line route_command send_oneshot
  process_oneshot_send trimmed username room =
      let acknowledge =
        env.admin.fanout.codec.encode
          (make_system (env.stamps 2) room.state.room_id "broker" "ok") in
      elim (parse_client_line (env.stamps 1) room.state.room_id username wire.envelope trimmed) [
        | none ↦ (some (wire.error_json "parse_error" (wire.parse_error trimmed)), room)
        | some msg ↦
            let (result, routed) = route_command host env msg username room in
            elim result [
              | none ↦ (some (wire.error_json "route_error" wire.route_error), routed)
              | some handled ↦ (acknowledge, routed)
              | some shutdown ↦ (acknowledge, routed)
              | some (handled_with_reply json) ↦ (some json, routed)
              | some (reply json) ↦ (some json, routed)
              | some (passthrough m) ↦ send_oneshot wire env m username routed
            ]
      ]
