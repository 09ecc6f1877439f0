-- ===== src/Poll/Tested.antt =====
-- The tests of the history mode (crates/room-cli/src/oneshot/poll) decide which messages are wanted.
use mathlib.Core.Option.{some-injective}
use room.Base.{
  ℕ, String, ◌≡◌, ◌↔◌, inl, inr, refl, sym, ap, ◌∙◌, Bool, true, false, ◌&&◌, ◌||◌, Option, none,
  some, List, [], ◌∷◌, arith, ◌==◌, ==_iff, if◌then◌else◌, Bool-cases, unwrap_or,
}
use room.Base.Dict.{Dict, get, set_contains}
use room.Base.Text.Codec.{Codec}
use room.Protocol.Events.{
  EventType, show_event, parse_event, parse_event-show_event, contains_event, EventFilter,
  all_events, no_events, only, allows, SubscriptionTier, full, mentions_only, unsubscribed,
}
use room.Protocol.Message.{
  Message, join, leave, message, reply, command, system, direct_message, event, room_of,
}
use room.Query.Filter.{QueryFilter, matches}
use room.Query.Satisfies.{matches_iff}
use room.Poll.Filters.{
  Files, load_map, load_user_tier, load_user_event_filter, passes_tier, passes_event,
}
use room.Poll.Commands.{is_own}
use room.Poll.Asked.{
  MayRead, on_file, Subscribed, OneOf, Allowed, IsFiltered, tier_of, filter_of, IsWanted,
}

module _ {J : Type 0} (username : String) where
  is_own_iff : (m : Message J) → (is_own username m ≡ true) ↔ MayRead username m
  unfolding is_own
  is_own_iff (join i r u t s) = (λ h. tt, λ h. refl)
  is_own_iff (leave i r u t s) = (λ h. tt, λ h. refl)
  is_own_iff (message i r u t s c) = (λ h. tt, λ h. refl)
  is_own_iff (reply i r u t s to c) = (λ h. tt, λ h. refl)
  is_own_iff (command i r u t s cmd ps) = (λ h. tt, λ h. refl)
  is_own_iff (system i r u t s c d) = (λ h. tt, λ h. refl)
  is_own_iff (event i r u t s e c ps) = (λ h. tt, λ h. refl)
  is_own_iff (direct_message i r user t s to c) = (
    λ h. elim (Bool-cases (user == username)) [
      | inl e ↦ inl ((==_iff user username).0 e)
      | inr e ↦ inr ((==_iff to username).0 (ground (arith, h, e)))
    ],
    λ h. elim h [
      | inl e ↦ let same = (==_iff user username).1 e in ground (arith, same)
      | inr e ↦ let same = (==_iff to username).1 e in ground (arith, same)
    ],
  )

  passes_tier_iff :
      (alphanumeric : ℕ → Bool) (tier : Option SubscriptionTier) (m : Message J)
      → (passes_tier alphanumeric (unwrap_or tier full) username m ≡ true)
        ↔ Subscribed alphanumeric tier username m
  unfolding passes_tier
  passes_tier_iff alphanumeric none m = (λ h. tt, λ h. refl)
  passes_tier_iff alphanumeric (some full) m = (λ h. tt, λ h. refl)
  passes_tier_iff alphanumeric (some mentions_only) m = (λ h. h, λ h. h)
  passes_tier_iff alphanumeric (some unsubscribed) m = (λ h. absurd (ground arith), λ h. absurd h)

contains_event_iff :
    (e : EventType) (types : List EventType) → (contains_event e types ≡ true) ↔ OneOf e types
unfolding contains_event
contains_event_iff e [] = (λ h. absurd (ground arith), λ h. absurd h)
contains_event_iff e (t ∷ types) =
    let rest = contains_event_iff e types in
    let same = ==_iff (show_event t) (show_event e) in
    (
      λ h. elim (Bool-cases (show_event t == show_event e)) [
        | inl s ↦ inl (
            some-injective t e (
              sym (parse_event-show_event t)
              ∙ ap parse_event (same.0 s)
              ∙ parse_event-show_event e))
        | inr s ↦ inr (rest.0 (ground (arith, h, s)))
      ],
      λ h. elim h [
        | inl s ↦ let shown = same.1 (ap show_event s) in ground (arith, shown)
        | inr r ↦ let there = rest.1 r in ground (arith, there)
      ],
    )

allows_iff :
    (filter : Option EventFilter) (e : EventType)
    → (allows (unwrap_or filter all_events) e ≡ true) ↔ Allowed filter e
unfolding allows
allows_iff none e = (λ h. tt, λ h. refl)
allows_iff (some all_events) e = (λ h. tt, λ h. refl)
allows_iff (some no_events) e = (λ h. absurd (ground arith), λ h. absurd h)
allows_iff (some (only types)) e = contains_event_iff e types

passes_event_iff :
    {J : Type 0} (filter : Option EventFilter) (m : Message J)
    → (passes_event (unwrap_or filter all_events) m ≡ true) ↔ IsFiltered filter m
unfolding passes_event
passes_event_iff filter (join i r u t s) = (λ h. tt, λ h. refl)
passes_event_iff filter (leave i r u t s) = (λ h. tt, λ h. refl)
passes_event_iff filter (message i r u t s c) = (λ h. tt, λ h. refl)
passes_event_iff filter (reply i r u t s to c) = (λ h. tt, λ h. refl)
passes_event_iff filter (command i r u t s cmd ps) = (λ h. tt, λ h. refl)
passes_event_iff filter (system i r u t s c d) = (λ h. tt, λ h. refl)
passes_event_iff filter (direct_message i r u t s to c) = (λ h. tt, λ h. refl)
passes_event_iff filter (event i r u t s e c ps) = allows_iff filter e

load_map-on_file :
    {V : Type 0} (c : Codec (Dict V)) (username : String) (file : Option String) (default : V)
    → unwrap_or (get username (load_map c file)) default
      ≡ unwrap_or (on_file c username file) default
unfolding load_map get
load_map-on_file c username none default = refl
load_map-on_file c username (some s) default =
    elim (c.decode s)
      as (λ o.
        unwrap_or (get username (unwrap_or o [])) default
        ≡ unwrap_or (elim o [ none ↦ none | some d ↦ get username d ]) default) [
          | none ↦ refl
          | some d ↦ refl
        ]

if-unwrap :
    {V : Type 0} (b : Bool) (o : Option V) (v default : V)
    → v ≡ unwrap_or o default
    → (if b then v else default) ≡ unwrap_or (if b then o else none) default
if-unwrap true o v default e = e
if-unwrap false o v default e = refl

module _ {J : Type 0} (alphanumeric : ℕ → Bool) (files : Files) (room_ids : List String)
    (username : String) (m : Message J) where
  tier_of_lem :
      (if set_contains (room_of m) room_ids
        then load_user_tier files (room_of m) username
        else full)
      ≡ unwrap_or (tier_of alphanumeric files room_ids username m) full
  unfolding load_user_tier
  tier_of_lem =
      if-unwrap (set_contains (room_of m) room_ids) _ _ full
        (load_map-on_file files.tier_codec username (files.subscriptions (room_of m)) full)

  filter_of_lem :
      (if set_contains (room_of m) room_ids
        then load_user_event_filter files (room_of m) username
        else all_events)
      ≡ unwrap_or (filter_of alphanumeric files room_ids username m) all_events
  unfolding load_user_event_filter
  filter_of_lem =
      if-unwrap (set_contains (room_of m) room_ids) _ _ all_events
        (load_map-on_file files.filter_codec username (files.event_filters (room_of m)) all_events)

  -- The tests of the code, one by one.
  pub IsWanted-iff :
      (f : QueryFilter)
      → ((matches alphanumeric f m (room_of m)
            && is_own username m
            && (f.public_only
                || (passes_tier alphanumeric
                      (if set_contains (room_of m) room_ids
                        then load_user_tier files (room_of m) username
                        else full)
                      username
                      m
                    && passes_event
                        (if set_contains (room_of m) room_ids
                          then load_user_event_filter files (room_of m) username
                          else all_events)
                        m)))
          ≡ true)
        ↔ IsWanted alphanumeric files room_ids username f m
  IsWanted-iff f =
      let asked = matches_iff alphanumeric f m (room_of m) in
      let own = is_own_iff username m in
      let tier =
        passes_tier_iff username alphanumeric (tier_of alphanumeric files room_ids username m) m in
      let filter = passes_event_iff (filter_of alphanumeric files room_ids username m) m in
      rw (tier_of_lem, filter_of_lem)
        (
          λ h. record {
            asked = asked.0 (ground (arith, h));
            readable = own.0 (ground (arith, h));
            chosen = elim (Bool-cases f.public_only) [
              | inl p ↦ inl p
              | inr p ↦ inr (tier.0 (ground (arith, h, p)), filter.0 (ground (arith, h, p)))
            ];
          },
          λ w.
              let a = asked.1 w.asked in
              let o = own.1 w.readable in
              elim w.chosen [
                | inl p ↦ ground (arith, a, o, p)
                | inr (t, e) ↦
                    let t' = tier.1 t in let e' = filter.1 e in ground (arith, a, o, t', e')
              ],
        )
