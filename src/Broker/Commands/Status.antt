-- ===== src/Broker/Commands/Status.antt =====
-- The commands of crates/room-daemon/src/broker/commands/handlers.rs that change the room.
use room.Base.{String, ◌<>◌, Option, none, some, List, [], ◌∷◌, if◌then◌else◌}
use room.Base.Text.{is_empty_text, join}
use room.Protocol.Events.{unsubscribed, show_tier, parse_tier}
use room.Protocol.EventFilter.{parse_filter}
use room.Protocol.Make.{make_system}
use room.Protocol.Message.{Message}
use room.Registry.State.{ok, err}
use room.Broker.Auth.{check_join_permission}
use room.Broker.Room.{
  Room, Env, with_state, show_filter, set_status, set_subscription, set_event_filter,
  persist_subscriptions, persist_event_filters, broadcast,
}

-- `CommandResult`
pub data CommandResult (J : Type 0) : Type 0 where
  handled shutdown : CommandResult J
  handled_with_reply reply : (json : String) → CommandResult J
  passthrough : Message J → CommandResult J

abbrev pub first_or : String → List String → String
first_or default [] = default
first_or default (p ∷ ps) = p

-- The error of `SubscriptionTier::from_str`
abbrev unknown_tier : String → String
unknown_tier other =
    "unknown subscription tier '" <> (other <> "'; expected full, mentions_only, or unsubscribed")

unfoldable pub status_text : String → String → String
status_text username status =
    if is_empty_text status
    then username <> " cleared their status"
    else username <> (" set status: " <> status)

module _ {J : Type 0} (env : Env J) where
  -- The result of a call, where `none` is the error that ends it, and the room after it.
  abbrev pub Outcome : Type 0
  Outcome = Option (CommandResult J) × Room

  -- `make_system(&state.room_id, "broker", content)`
  abbrev pub notice : String → Room → Message J
  notice content room = make_system (env.stamps 0) room.state.room_id "broker" content

  -- A message that only the issuer gets.
  unfoldable pub reply_with : String → Room → Outcome
  reply_with content room = elim (env.admin.fanout.codec.encode (notice content room)) [
    | none ↦ (none, room)
    | some json ↦ (some (reply json), room)
  ]

  -- A message that is broadcast; the reply is the message as it was persisted.
  unfoldable pub announce_persisted : String → Room → Outcome
  unfolding broadcast
  announce_persisted content room =
      let (sent, room') = broadcast env (notice content room) room in
      elim sent [
        | none ↦ (none, room')
        | some msg ↦ elim (env.admin.fanout.codec.encode msg) [
          | none ↦ (none, room')
          | some json ↦ (some (handled_with_reply json), room')
        ]
      ]

  -- A message that is broadcast; the reply is the message without its number.
  unfoldable pub announce_plain : String → Room → Outcome
  unfolding broadcast
  announce_plain content room =
      let (sent, room') = broadcast env (notice content room) room in
      elim sent [
        | none ↦ (none, room')
        | some msg ↦ elim (env.admin.fanout.codec.encode (notice content room)) [
          | none ↦ (none, room')
          | some json ↦ (some (handled_with_reply json), room')
        ]
      ]

  unfoldable pub handle_set_status : List String → String → Room → Outcome
  unfolding announce_persisted set_status status_text join
  handle_set_status params username room =
      let status = join " " params in
      announce_persisted (status_text username status)
        (with_state (set_status env.admin.utc username status room.state) room)

  unfoldable pub handle_subscribe : List String → String → Room → Outcome
  unfolding check_join_permission reply_with parse_tier set_subscription persist_subscriptions
      announce_plain show_tier
  handle_subscribe params username room = elim (check_join_permission username room.config) [
    | err reason ↦ reply_with reason room
    | ok _ ↦ elim (parse_tier (first_or "full" params)) [
      | none ↦ reply_with (unknown_tier (first_or "full" params)) room
      | some tier ↦
          announce_plain
            (username
              <> (" subscribed to "
                  <> (room.state.room_id <> (" (tier: " <> (show_tier tier <> ")")))))
            (persist_subscriptions env (set_subscription username tier room))
    ]
  ]

  unfoldable pub handle_unsubscribe : String → Room → Outcome
  unfolding set_subscription persist_subscriptions announce_plain
  handle_unsubscribe username room =
      announce_plain (username <> (" unsubscribed from " <> room.state.room_id))
        (persist_subscriptions env (set_subscription username unsubscribed room))

  unfoldable pub handle_subscribe_events : List String → String → Room → Outcome
  unfolding check_join_permission reply_with parse_filter set_event_filter persist_event_filters
      announce_plain show_filter
  handle_subscribe_events params username room = elim (check_join_permission username room.config) [
    | err reason ↦ reply_with reason room
    | ok _ ↦ elim (parse_filter (first_or "all" params)) [
      | none ↦ reply_with (env.filter_error (first_or "all" params)) room
      | some filter ↦
          announce_plain
            (username
              <> (" event filter set to "
                  <> (show_filter filter <> (" in " <> room.state.room_id))))
            (persist_event_filters env (set_event_filter username filter room))
    ]
  ]
