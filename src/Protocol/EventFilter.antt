-- ===== src/Protocol/EventFilter.antt =====
-- Reading an `EventFilter` (crates/room-protocol/src/lib.rs). The texts of the errors are not modelled.
use Prim.Native.Char.{code}
use mathlib.Core.Option.{none-ne-some, some-injective}
use room.Base.{
  String, ◌<>◌, ◌≡◌, refl, sym, ap, ◌∙◌, Bool, true, false, ◌||◌, Option, none, some, List, [], ◌∷◌,
  arith, if◌then◌else◌, is_empty, any, nat_eq, ◌==◌, ==_iff, Bool-cases, Option-cases, inl, inr,
}
use room.Base.Text.{is_empty_text}
use room.Base.Text.Blank.{trim}
use room.Protocol.Events.{
  EventType, EventFilter, all_events, no_events, only, show_event, parse_event, contains_event,
  allows, parse_event_iff,
}

-- `types.insert(et)`
unfoldable pub insert_event : EventType → List EventType → List EventType
unfolding contains_event
insert_event e types = if contains_event e types then types else e ∷ types

push_char : String → List String → List String
push_char c [] = c ∷ []
push_char c (p ∷ ps) = (c <> p) ∷ ps

-- `csv.split(',')`
unfoldable pub split_commas : String → List String
unfolding push_char
split_commas String.[] = "" ∷ []
split_commas (String.◌∷◌ c s) =
    let rest = split_commas s in
    if nat_eq (code c) b',' then "" ∷ rest else push_char (String.◌∷◌ c "") rest

-- The loop over the parts: `types` are those read so far.
unfoldable pub parse_parts : List String → List EventType → Option (List EventType)
unfolding insert_event
parse_parts [] types = some types
parse_parts (part ∷ parts) types =
    let rest = parse_parts parts types in
    if is_empty_text (trim part) then rest else elim (parse_event (trim part)) [
      | none ↦ none
      | some et ↦ parse_parts parts (insert_event et types)
    ]

-- `FromStr for EventFilter`
unfoldable pub parse_filter : String → Option EventFilter
unfolding split_commas parse_parts
parse_filter s =
    if s == "all"
    then some all_events
    else if s == "none"
    then some no_events
    else if s == ""
    then some all_events
    else elim (parse_parts (split_commas s) []) [
      | none ↦ none
      | some types ↦ some (if is_empty types then all_events else only types)
    ]

contains_event-same :
    (d e : EventType) (types : List EventType)
    → (show_event d == show_event e) ≡ true
    → contains_event d types ≡ contains_event e types
unfolding contains_event
contains_event-same d e [] h = refl
contains_event-same d e (t ∷ types) h = ground (
  arith,
  ==_iff (show_event d) (show_event e),
  contains_event-same d e types h,
  ap (λ x. show_event t == x) ((==_iff (show_event d) (show_event e)).0 h),
)

is_empty_text→empty : (s : String) → is_empty_text s ≡ true → s ≡ ""
unfolding is_empty_text
is_empty_text→empty String.[] h = refl
is_empty_text→empty (String.◌∷◌ c s) h = cc

no_name_empty : parse_event "" ≡ none
unfolding parse_event ◌==◌
no_name_empty = refl

blank_is_no_name :
    (s : String) (e : EventType) → is_empty_text s ≡ true → (s == show_event e) ≡ false
blank_is_no_name s e h = elim (Bool-cases (s == show_event e)) [
  | inr n ↦ n
  | inl y ↦ absurd (
      none-ne-some e (
        sym no_name_empty
        ∙ (parse_event_iff "" e).1 (sym (is_empty_text→empty s h) ∙ (==_iff s (show_event e)).0 y)))
]

contains_event-insert :
    (e t : EventType) (types : List EventType)
    → contains_event e (insert_event t types)
      ≡ (show_event t == show_event e || contains_event e types)
unfolding insert_event contains_event
contains_event-insert e t types = ground (arith, contains_event-same t e types)

-- The types read are those there were, and those whose names the parts are, blanks around them apart.
parse_parts_lem :
    (e : EventType) (parts : List String) (types read : List EventType)
    → parse_parts parts types ≡ some read
    → contains_event e read ≡ (any (λ p. trim p == show_event e) parts || contains_event e types)
unfolding parse_parts
parse_parts_lem e [] types read h = ground arith
parse_parts_lem e (part ∷ parts) types read h = elim (Bool-cases (is_empty_text (trim part))) [
  | inl b ↦
      ground (arith, b, h, blank_is_no_name (trim part) e b, parse_parts_lem e parts types read)
  | inr b ↦ elim (Option-cases (parse_event (trim part))) [
    | inl n ↦ ground (arith, b, n, h)
    | inr (et, y) ↦ ground (
      arith,
      b,
      y,
      h,
      contains_event-insert e et types,
      parse_parts_lem e parts (insert_event et types) read,
      ap (λ x. x == show_event e) ((parse_event_iff (trim part) et).0 y),
    )
  ]
]

contains→filled :
    (e : EventType) (types : List EventType)
    → contains_event e types ≡ true
    → is_empty types ≡ false
unfolding contains_event
contains→filled e [] h = cc
contains→filled e (t ∷ types) h = refl

allows-only :
    (d e : EventType) (types : List EventType)
    → contains_event d types ≡ true
    → allows (if is_empty types then all_events else only types) e ≡ contains_event e types
unfolding allows
allows-only d e types h = rw (contains→filled d types h) refl

abbrev pub names : String → EventType → Bool
names s e = any (λ p. trim p == show_event e) (split_commas s)

parse_filter-csv :
    (s : String)
    → (s == "all") ≡ false
    → (s == "none") ≡ false
    → (s == "") ≡ false
    → parse_filter s ≡ elim (parse_parts (split_commas s) []) [
      | none ↦ none
      | some types ↦ some (if is_empty types then all_events else only types)
    ]
unfolding parse_filter
parse_filter-csv s ha hn he = rw (ha, hn, he) refl

-- A filter read from a text other than `all`, `none` and the empty one, in which the name of some event
-- type stands between commas, allows exactly the event types whose names stand there, blanks around
-- them apart.
pub parse_filter-allows :
    (s : String) (f : EventFilter) (d e : EventType)
    → (s == "all") ≡ false
    → (s == "none") ≡ false
    → (s == "") ≡ false
    → names s d ≡ true
    → parse_filter s ≡ some f
    → allows f e ≡ names s e
unfolding contains_event
parse_filter-allows s f d e ha hn he hd h = elim (Option-cases (parse_parts (split_commas s) [])) [
  | inl n ↦ absurd (none-ne-some f (rw n at (sym (parse_filter-csv s ha hn he) ∙ h)))
  | inr (types, y) ↦
      let has = parse_parts_lem d (split_commas s) [] types y in
      let wants = parse_parts_lem e (split_commas s) [] types y in
      let same = some-injective _ f (rw y at (sym (parse_filter-csv s ha hn he) ∙ h)) in
      rw (← same) (allows-only d e types (ground (arith, has, hd)) ∙ ground (arith, wants))
]
