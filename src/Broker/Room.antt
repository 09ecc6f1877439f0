-- ===== src/Broker/Room.antt =====
-- The whole state of a room, with the accessors of `RoomState` in crates/room-daemon/src/broker/state.rs
-- and the files of subscriptions and event filters of persistence.rs.
use room.Base.{ℕ, String, Bool, Option, none, some, [], ◌∷◌, map, if◌then◌else◌}
use room.Base.Dict.{Dict, insert}
use room.Base.Text.{join}
use room.Base.Text.Codec.{Codec}
use room.Protocol.Events.{SubscriptionTier, EventFilter, all_events, no_events, only, show_event}
use room.Protocol.Make.{Stamp}
use room.Protocol.Rooms.{RoomConfig, text_lt}
use room.Protocol.Message.{Message}
use room.Poll.Filters.{save_map}
use room.Poll.Cursor.{Fault}
use room.Broker.Fanout.{broadcast_and_persist}
use room.Broker.Admin.{RoomState}
use room.Broker.Admin as Admin

-- `RoomState` with the rest of its fields. `state.auth.subscription_map` is the map of `FilterState`;
-- `event_filters` are the map that was attached and what its file holds.
pub record Room : Type 0 where
  pub state : RoomState
  pub subscription_file : Option String
  pub meta_file : Option String
  pub event_filters : Option (Dict EventFilter × Option String)
  pub config : Option RoomConfig

-- What a call meets: `stamps` are the UUIDs and times of the messages that it makes, by their number, and
-- `filter_error` is the text of the error for a text that is no filter.
pub record Env (J : Type 0) : Type 0 where
  pub admin : Admin.Env J
  pub stamps : ℕ → Stamp
  pub tiers : Codec (Dict SubscriptionTier)
  pub filters : Codec (Dict EventFilter)
  pub subscription_fault : Fault
  pub event_filter_fault : Fault
  pub alphanumeric : ℕ → Bool
  pub filter_error : String → String

abbrev pub with_state : RoomState → Room → Room
with_state state room = record room { state = state }

abbrev pub with_subscriptions : Dict SubscriptionTier → Room → Room
with_subscriptions subscription_map room = record room {
  state = record room.state {
    auth = record room.state.auth { subscription_map = subscription_map };
  };
}

-- `Display for EventFilter`
unfoldable pub show_filter : EventFilter → String
unfolding join
show_filter all_events = "all"
show_filter no_events = "none"
show_filter (only types) = join "," (map show_event types)

-- `sort_by(|a, b| a.0.cmp(&b.0))` on the entries of a map
unfoldable pub insert_entry : {V : Type 0} → String → V → Dict V → Dict V
unfolding text_lt
insert_entry k v [] = (k, v) ∷ []
insert_entry k v ((j, w) ∷ d) =
    let rest = insert_entry k v d in if text_lt k j then (k, v) ∷ ((j, w) ∷ d) else (j, w) ∷ rest

unfoldable pub entries : {V : Type 0} → Dict V → Dict V
unfolding insert_entry
entries [] = []
entries ((k, v) ∷ d) = insert_entry k v (entries d)

-- The values of a map under another key.
unfoldable pub keyed_by : {V : Type 0} → (V → String) → Dict V → Dict V
keyed_by key [] = []
keyed_by key ((k, v) ∷ d) = (key v, v) ∷ keyed_by key d

unfoldable pub set_status : ℕ → String → String → RoomState → RoomState
set_status utc user status state = record state {
  status_map = insert user status state.status_map;
  status_timestamps = insert user utc state.status_timestamps;
}

unfoldable pub record_last_message : ℕ → String → RoomState → RoomState
record_last_message utc user state = record state {
  last_message_times = insert user utc state.last_message_times;
}

unfoldable pub set_subscription : String → SubscriptionTier → Room → Room
set_subscription user tier room =
    with_subscriptions (insert user tier room.state.auth.subscription_map) room

unfoldable pub set_event_filter : String → EventFilter → Room → Room
set_event_filter user filter room = elim room.event_filters [
  | none ↦ room
  | some (map, file) ↦ record room { event_filters = some (insert user filter map, file) }
]

module _ {J : Type 0} (env : Env J) where
  -- Both print their errors only.
  unfoldable pub persist_subscriptions : Room → Room
  unfolding save_map
  persist_subscriptions room = record room {
    subscription_file =
        (save_map env.tiers env.subscription_fault room.state.auth.subscription_map
          room.subscription_file).1;
  }

  unfoldable pub persist_event_filters : Room → Room
  unfolding save_map
  persist_event_filters room = elim room.event_filters [
    | none ↦ room
    | some (map, file) ↦ record room {
      event_filters = some (map, (save_map env.filters env.event_filter_fault map file).1);
    }
  ]

  -- `broadcast_and_persist` on the room's fields
  unfoldable pub broadcast : Message J → Room → Option (Message J) × Room
  unfolding broadcast_and_persist
  broadcast msg room =
      let (sent, channel) = broadcast_and_persist env.admin.fanout msg room.state.channel in
      (sent, with_state (record room.state { channel = channel }) room)
