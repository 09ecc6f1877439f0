-- ===== src/Poll/Filters.antt =====
-- crates/room-cli/src/oneshot/poll/filter_tier.rs and filter_events.rs, and the files of subscriptions and
-- event filters of crates/room-daemon/src/broker/persistence.rs. A file is `none` where it does not exist.
use room.Base.{ℕ, String, Bool, true, false, Option, none, some, List, [], map, keep, unwrap_or}
use room.Base.Dict.{Dict, get, set_contains}
use room.Base.Text.Codec.{Codec}
use room.Protocol.Events.{
  EventFilter, all_events, allows, SubscriptionTier, full, mentions_only, unsubscribed,
}
use room.Protocol.Message.{Message, event, mentions, room_of}
use room.Poll.Cursor.{Fault}

-- `save_subscription_map` and `save_event_filter_map`: whether it succeeds, and the file after it. An
-- error of `to_string_pretty` leaves the file.
unfoldable pub save_map :
    {V : Type 0} → Codec (Dict V) → Fault → Dict V → Option String → Bool × Option String
save_map c fault d file = elim (c.encode d) [
  | none ↦ (false, file)
  | some s ↦ elim fault [ none ↦ (true, some s) | some rest ↦ (false, rest) ]
]

-- `load_subscription_map` and `load_event_filter_map`
unfoldable pub load_map : {V : Type 0} → Codec (Dict V) → Option String → Dict V
load_map c none = []
load_map c (some s) = unwrap_or (c.decode s) []

-- The two files of each room, and `serde_json` for them.
pub record Files : Type 0 where
  pub subscriptions : String → Option String
  pub event_filters : String → Option String
  pub tier_codec : Codec (Dict SubscriptionTier)
  pub filter_codec : Codec (Dict EventFilter)

unfoldable pub load_user_tier : Files → String → String → SubscriptionTier
unfolding load_map
load_user_tier files room_id username =
    unwrap_or (get username (load_map files.tier_codec (files.subscriptions room_id))) full

unfoldable pub load_user_event_filter : Files → String → String → EventFilter
unfolding load_map
load_user_event_filter files room_id username =
    unwrap_or (get username (load_map files.filter_codec (files.event_filters room_id))) all_events

module _ {J : Type 0} (alphanumeric : ℕ → Bool) where
  -- Whether a message passes a tier.
  unfoldable pub passes_tier : SubscriptionTier → String → Message J → Bool
  passes_tier full username m = true
  passes_tier mentions_only username m = set_contains username (mentions alphanumeric m)
  passes_tier unsubscribed username m = false

  unfoldable pub apply_tier_filter : List (Message J) → SubscriptionTier → String → List (Message J)
  apply_tier_filter messages full username = messages
  apply_tier_filter messages mentions_only username =
      keep (λ m. set_contains username (mentions alphanumeric m)) messages
  apply_tier_filter messages unsubscribed username = []

  unfoldable pub apply_per_room_tier_filter :
      Files → List (Message J) → List String → String → List (Message J)
  unfolding passes_tier
  apply_per_room_tier_filter files messages room_ids username =
      let tiers = map (λ r. (r, load_user_tier files r username)) room_ids in
      keep (λ m. passes_tier (unwrap_or (get (room_of m) tiers) full) username m) messages

module _ {J : Type 0} where
  -- Only events are filtered.
  unfoldable pub passes_event : EventFilter → Message J → Bool
  passes_event filter (event i r u t s event_type c ps) = allows filter event_type
  passes_event filter _ = true

  unfoldable pub apply_event_filter : List (Message J) → EventFilter → List (Message J)
  unfolding passes_event
  apply_event_filter messages all_events = messages
  apply_event_filter messages filter = keep (passes_event filter) messages

  unfoldable pub apply_per_room_event_filter :
      Files → List (Message J) → List String → String → List (Message J)
  unfolding passes_event
  apply_per_room_event_filter files messages room_ids username =
      let filters = map (λ r. (r, load_user_event_filter files r username)) room_ids in
      keep (λ m. passes_event (unwrap_or (get (room_of m) filters) all_events) m) messages
