-- ===== src/Poll/Asked.antt =====
-- What the answer of a query's history mode is to be
-- (crates/room-cli/src/oneshot/poll/commands.rs), without the code that computes it.

use room.Base.{
  ℕ, ◌≤◌, String, ◌≡◌, ◌⊎◌, ◌↔◌, Bool, true, false, Option, none, some, List, [], ◌∷◌, ◌++◌, keep,
  All, length, nat_eq, if◌then◌else◌,
}
use room.Base.Dict.{Dict, get, set_contains}
use room.Base.Text.Codec.{Codec}
use room.Protocol.Events.{
  EventType, EventFilter, all_events, no_events, only, SubscriptionTier, full, mentions_only,
  unsubscribed,
}
use room.Protocol.Message.{Message, direct_message, event, mentions, room_of, ts}
use room.Registry.State.{Result, ok, err}
use room.Query.Filter.{QueryFilter}
use room.Query.Satisfies.{Satisfies}
use room.Broker.Fanout.{Env}
use room.History.File.{load}
use room.Poll.Filters.{Files}

-- The order of two times.
abbrev pub Ordered : Bool → ℕ → ℕ → Type 0
Ordered true a b = a ≤ b
Ordered false a b = b ≤ a

-- Whether a message has the timestamp.
abbrev pub is_at : {J : Type 0} → ℕ → Message J → Bool
is_at t m = nat_eq (ts m) t

-- Each message is ordered before all that stand behind it.
abbrev pub IsSorted : {J : Type 0} → Bool → List (Message J) → Type 0
IsSorted ascending [] = Unit
IsSorted ascending (m ∷ ms) = All (λ b. Ordered ascending (ts m) (ts b)) ms × IsSorted ascending ms

-- How many are shown and how many are left out.
abbrev pub IsLimit : Option ℕ → ℕ → ℕ → Type 0
IsLimit none shown out = out ≡ 0
IsLimit (some n) shown out = (shown ≤ n) × ((out ≡ 0) ⊎ (shown ≡ n))

-- Only where one message was asked for, and is not there, is the answer an error.
abbrev pub Reports :
    {J : Type 0} → Option (String × ℕ) → List (Message J) → Result (List (Message J)) → Type 0
Reports none ms answer = answer ≡ ok ms
Reports (some target) [] answer = (e : String) × (answer ≡ err e)
Reports (some target) (m ∷ ms) answer = answer ≡ ok (m ∷ ms)

-- A direct message is for its sender and its recipient.
abbrev pub MayRead : {J : Type 0} → String → Message J → Type 0
MayRead username (direct_message i r user t s to c) = (user ≡ username) ⊎ (to ≡ username)
MayRead username _ = Unit

-- What a file of subscriptions or event filters holds for the user, where it can be read.
abbrev pub on_file : {V : Type 0} → Codec (Dict V) → String → Option String → Option V
on_file c username none = none
on_file c username (some s) = elim (c.decode s) [ none ↦ none | some d ↦ get username d ]

-- The user's subscription wants the message.
abbrev pub Subscribed :
    {J : Type 0} → (ℕ → Bool) → Option SubscriptionTier → String → Message J → Type 0
Subscribed alphanumeric none username m = Unit
Subscribed alphanumeric (some full) username m = Unit
Subscribed alphanumeric (some mentions_only) username m =
    set_contains username (mentions alphanumeric m) ≡ true
Subscribed alphanumeric (some unsubscribed) username m = ⊥

abbrev pub OneOf : EventType → List EventType → Type 0
OneOf e [] = ⊥
OneOf e (t ∷ types) = (t ≡ e) ⊎ OneOf e types

abbrev pub Allowed : Option EventFilter → EventType → Type 0
Allowed none e = Unit
Allowed (some all_events) e = Unit
Allowed (some no_events) e = ⊥
Allowed (some (only types)) e = OneOf e types

-- The user's event filter wants the message, if it is an event.
abbrev pub IsFiltered : {J : Type 0} → Option EventFilter → Message J → Type 0
IsFiltered filter (event i r u t s event_type c ps) = Allowed filter event_type
IsFiltered filter _ = Unit

module _ {J : Type 0} (alphanumeric : ℕ → Bool) (files : Files) (room_ids : List String)
    (username : String) where
  -- What the user has in the files of the message's room, if that was asked for.
  abbrev pub tier_of : Message J → Option SubscriptionTier
  tier_of m =
      if set_contains (room_of m) room_ids
      then on_file files.tier_codec username (files.subscriptions (room_of m))
      else none

  abbrev pub filter_of : Message J → Option EventFilter
  filter_of m =
      if set_contains (room_of m) room_ids
      then on_file files.filter_codec username (files.event_filters (room_of m))
      else none

  -- The query asks for the message, the user may read it, and unless the query is for public messages
  -- only, the user's subscription and event filter want it.
  pub record IsWanted (f : QueryFilter) (m : Message J) : Type 0 where
    pub asked : Satisfies alphanumeric f m (room_of m)
    pub readable : MayRead username m
    pub chosen :
        (f.public_only ≡ true)
        ⊎ (Subscribed alphanumeric (tier_of m) username m × IsFiltered (filter_of m) m)

  -- The histories of the rooms, one behind the other.
  abbrev pub histories : Env J → (String → Option String) → List String → List (Message J)
  histories env chats [] = []
  histories env chats (r ∷ rs) = load env (chats r) ++ histories env chats rs

  -- The wanted messages and no others, in the order asked for, those of one time in the order of the
  -- histories, up to the limit.
  pub record IsAnswer (env : Env J) (chats : String → Option String) (f : QueryFilter)
      (answer : Result (List (Message J))) : Type 0 where
    pub is_wanted : Message J → Bool
    pub wanted : (m : Message J) → (is_wanted m ≡ true) ↔ IsWanted f m
    pub sorted : List (Message J)
    pub in_order : IsSorted f.ascending sorted
    pub complete :
        (t : ℕ)
        → keep (is_at t) sorted ≡ keep (is_at t) (keep is_wanted (histories env chats room_ids))
    pub shown : List (Message J)
    pub left_out : List (Message J)
    pub cut : sorted ≡ shown ++ left_out
    pub limited : IsLimit f.limit (length shown) (length left_out)
    pub reported : Reports f.target_id shown answer
