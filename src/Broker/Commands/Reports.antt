-- ===== src/Broker/Commands/Reports.antt =====
-- The commands of crates/room-daemon/src/broker/commands (handlers.rs, info.rs) that only report.
use room.Base.{
  ℕ, ◌-◌, ◌/◌, String, ◌<>◌, none, some, List, [], ◌∷◌, if◌then◌else◌, ltb, is_empty, is_some_of,
  unwrap_or, length,
}
use room.Base.Dict.{Dict, get}
use room.Base.Text.{is_empty_text, join, pad_right, strip_prefix}
use room.Base.Text.Decimal.{to_decimal}
use room.Base.Text.Split.{replace}
use room.Protocol.Events.{EventFilter, show_tier}
use room.Protocol.Rooms.{RoomVisibility}
use room.Broker.Room.{Room, entries, keyed_by, show_filter}

-- `status.replace(", ", "; ")`
abbrev safe : String → String
safe status = replace ", " "; " status

-- The loop of `map` over the entries of a map.
unfoldable pub map_entries : {V A : Type 0} → (String → V → A) → Dict V → List A
map_entries f [] = []
map_entries f ((k, v) ∷ d) = f k v ∷ map_entries f d

unfoldable pub format_duration_short : ℕ → String
unfolding to_decimal
format_duration_short secs =
    if ltb secs 60
    then to_decimal secs <> "s"
    else if ltb secs 3600
    then to_decimal (secs / 60) <> "m"
    else if ltb secs 86400
    then to_decimal (secs / 3600) <> "h"
    else to_decimal (secs / 86400) <> "d"

unfoldable pub who_text : Dict String → String
unfolding entries map_entries join replace
who_text status_map =
    let shown =
      map_entries (λ u s. if is_empty_text s then u else u <> (": " <> safe s))
        (entries status_map) in
    if is_empty shown then "no users online" else "online — " <> join ", " shown

-- Times are nanoseconds; `clock` is `format("%H:%M")`.
unfoldable pub verbose_line : (ℕ → String) → ℕ → Room → String → String → String
unfolding pad_right replace format_duration_short
verbose_line clock now room user status =
    let shown = if is_empty_text status then "idle" else safe status in
    let duration : String = elim (get user room.state.status_timestamps) [
      | none ↦ "?"
      | some ts ↦ format_duration_short ((now - ts) / 1000000000)
    ] in
    let last : String = elim (get user room.state.last_message_times) [
      | none ↦ "-"
      | some ts ↦ clock ts
    ] in
    pad_right 14 user <> (" " <> (shown <> (" (" <> (duration <> (")  last msg: " <> last)))))

unfoldable pub who_verbose_text : (ℕ → String) → ℕ → Room → String
unfolding entries map_entries join verbose_line
who_verbose_text clock now room =
    let lines = map_entries (verbose_line clock now room) (entries room.state.status_map) in
    if is_empty lines then "no users online" else join "\n" lines

unfoldable pub subscriptions_text : Room → String
unfolding entries map_entries join show_tier show_filter
subscriptions_text room =
    let tiers =
      map_entries (λ u t. u <> (": " <> show_tier t)) (entries room.state.auth.subscription_map) in
    let event_filters : Dict EventFilter = elim room.event_filters [
      | none ↦ []
      | some (d, file) ↦ d
    ] in
    let filters = map_entries (λ u f. u <> (": " <> show_filter f)) (entries event_filters) in
    if is_empty tiers
    then if is_empty filters then "no subscriptions" else "event filters — " <> join ", " filters
    else join " | " (
        ("tiers — " <> join ", " tiers)
        ∷ (if is_empty filters then [] else ("event filters — " <> join ", " filters) ∷ []))

-- The names that `/who_all` lists: the registry's, or the room's.
unfoldable pub all_names : Room → List String
unfolding entries keyed_by map_entries
all_names room = elim room.state.auth.registry [
  | some reg ↦ map_entries (λ k u. k) (entries (keyed_by (λ u. u.username) reg.contents.users))
  | none ↦ map_entries (λ u s. u) (entries room.state.status_map)
]

-- `show_visibility` is serde's text.
unfoldable pub room_info : (RoomVisibility → String) → Room → String
unfolding to_decimal join
room_info show_visibility room =
    let members = to_decimal (length room.state.status_map) in
    let subscribers = to_decimal (length room.state.auth.subscription_map) in
    let host = unwrap_or room.state.channel.host_user "(none)" in
    elim room.config [
      | none ↦
          "room: "
          <> (room.state.room_id
              <> (" | visibility: public (legacy) | host: "
                  <> (host
                      <> (" | members online: "
                          <> (members <> (" | subscribers: " <> subscribers))))))
      | some config ↦
          let max : String = elim config.max_members [
            | none ↦ "unlimited"
            | some n ↦ to_decimal n
          ] in
          "room: "
          <> (room.state.room_id
              <> (" | visibility: "
                  <> (show_visibility config.visibility
                      <> (" | max members: "
                          <> (max
                              <> (" | host: "
                                  <> (host
                                      <> (" | members online: "
                                          <> (members
                                              <> (" | subscribers: "
                                                  <> (subscribers
                                                      <> (" | invited: ["
                                                          <> (join ", " config.invite_list
                                                            <> ("] | created by: "
                                                            <> config.created_by))))))))))))))
    ]

unfoldable pub user_info : String → Room → String
unfolding join show_tier
user_info target room =
    let online : String = elim (get target room.state.status_map) [
      | none ↦ "offline"
      | some status ↦ if is_empty_text status then "online" else "online (" <> (status <> ")")
    ] in
    let tier : String = elim (get target room.state.auth.subscription_map) [
      | none ↦ "subscription: none"
      | some t ↦ "subscription: " <> show_tier t
    ] in
    join " | " (
      ("user: " <> target)
      ∷ online
      ∷ tier
      ∷ (if is_some_of room.state.channel.host_user target then "host: yes" ∷ [] else []))

unfoldable pub handle_info : (RoomVisibility → String) → List String → Room → String
unfolding room_info user_info strip_prefix
handle_info show_visibility [] room = room_info show_visibility room
handle_info show_visibility (target ∷ params) room =
    user_info (unwrap_or (strip_prefix "@" target) target) room
