-- ===== src/Protocol/Events.antt =====
-- `EventType`, `EventFilter` and `SubscriptionTier` of crates/room-protocol/src/lib.rs.
use room.Base.{
  ◌≡◌, ◌↔◌, refl, arith, Bool, true, false, ◌||◌, List, [], ◌∷◌, ==_iff, String, Option, none, some,
  if◌then◌else◌, ◌==◌,
}

pub data EventType : Type 0 where
  task_posted task_assigned task_claimed task_planned task_approved task_updated : EventType
  task_released task_finished task_cancelled status_changed review_requested : EventType
  review_claimed task_rejected : EventType

-- `Display for EventType`
unfoldable pub show_event : EventType → String
show_event task_posted = "task_posted"
show_event task_assigned = "task_assigned"
show_event task_claimed = "task_claimed"
show_event task_planned = "task_planned"
show_event task_approved = "task_approved"
show_event task_updated = "task_updated"
show_event task_released = "task_released"
show_event task_finished = "task_finished"
show_event task_cancelled = "task_cancelled"
show_event status_changed = "status_changed"
show_event review_requested = "review_requested"
show_event review_claimed = "review_claimed"
show_event task_rejected = "task_rejected"

-- `FromStr for EventType`; the error's text is not modelled.
unfoldable pub parse_event : String → Option EventType
parse_event s =
    if s == "task_posted"
    then some task_posted
    else if s == "task_assigned"
    then some task_assigned
    else if s == "task_claimed"
    then some task_claimed
    else if s == "task_planned"
    then some task_planned
    else if s == "task_approved"
    then some task_approved
    else if s == "task_updated"
    then some task_updated
    else if s == "task_released"
    then some task_released
    else if s == "task_finished"
    then some task_finished
    else if s == "task_cancelled"
    then some task_cancelled
    else if s == "status_changed"
    then some status_changed
    else if s == "review_requested"
    then some review_requested
    else if s == "review_claimed"
    then some review_claimed
    else if s == "task_rejected"
    then some task_rejected
    else none

pub data SubscriptionTier : Type 0 where
  full mentions_only unsubscribed : SubscriptionTier

-- `Display for SubscriptionTier`
unfoldable pub show_tier : SubscriptionTier → String
show_tier full = "full"
show_tier mentions_only = "mentions_only"
show_tier unsubscribed = "unsubscribed"

-- `FromStr for SubscriptionTier`
unfoldable pub parse_tier : String → Option SubscriptionTier
parse_tier s =
    if s == "full"
    then some full
    else if s == "mentions_only"
    then some mentions_only
    else if s == "mentions-only"
    then some mentions_only
    else if s == "mentions"
    then some mentions_only
    else if s == "unsubscribed"
    then some unsubscribed
    else if s == "none"
    then some unsubscribed
    else none

-- `EventFilter`; the set of types is a list.
pub data EventFilter : Type 0 where
  all_events no_events : EventFilter
  only : List EventType → EventFilter

abbrev same_event : EventType → EventType → Bool
same_event a b = show_event a == show_event b

-- `types.contains(event_type)`, in the order of `Ord for EventType`, which is that of the names
unfoldable pub contains_event : EventType → List EventType → Bool
contains_event e [] = false
contains_event e (t ∷ types) = show_event t == show_event e || contains_event e types

unfoldable pub allows : EventFilter → EventType → Bool
unfolding contains_event
allows all_events e = true
allows no_events e = false
allows (only types) e = contains_event e types

-- Every name that is shown is read back.
pub parse_event-show_event : (e : EventType) → parse_event (show_event e) ≡ some e
unfolding parse_event show_event ◌==◌
parse_event-show_event task_posted = refl
parse_event-show_event task_assigned = refl
parse_event-show_event task_claimed = refl
parse_event-show_event task_planned = refl
parse_event-show_event task_approved = refl
parse_event-show_event task_updated = refl
parse_event-show_event task_released = refl
parse_event-show_event task_finished = refl
parse_event-show_event task_cancelled = refl
parse_event-show_event status_changed = refl
parse_event-show_event review_requested = refl
parse_event-show_event review_claimed = refl
parse_event-show_event task_rejected = refl

-- A name that is read is the one that is shown.
pub show_event-parse_event :
    (s : String) (e : EventType) → parse_event s ≡ some e → s ≡ show_event e
unfolding parse_event show_event
show_event-parse_event s e h = ground (arith, ==_iff s (show_event e), h)

-- Each event type has its own name, and that name alone is parsed as it.
pub parse_event_iff : (s : String) (e : EventType) → (parse_event s ≡ some e) ↔ (s ≡ show_event e)
parse_event_iff s e = (show_event-parse_event s e, λ h. rw h (parse_event-show_event e))

-- Every subscription tier is read back from its name.
parse_tier-show_tier : (t : SubscriptionTier) → parse_tier (show_tier t) ≡ some t
unfolding parse_tier show_tier ◌==◌
parse_tier-show_tier full = refl
parse_tier-show_tier mentions_only = refl
parse_tier-show_tier unsubscribed = refl
