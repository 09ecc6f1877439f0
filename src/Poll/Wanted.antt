-- ===== src/Poll/Wanted.antt =====
-- Which messages the history mode of a query prints, and in which order
-- (crates/room-cli/src/oneshot/poll/commands.rs).
use mathlib.Core.Path.{subst}
use room.Base.{
  ℕ, String, ◌≡◌, refl, sym, ap, ◌∙◌, Bool, true, false, ◌&&◌, ◌||◌, Option, List, [], ◌∷◌, arith,
  map, keep, ◌==◌, ==_iff, if◌then◌else◌, Bool-cases, inl, inr, unwrap_or, ◌++◌, ◌↔◌,
}
use room.Base.Dict.{get, set_contains}
use room.Protocol.Events.{all_events, full}
use room.Protocol.Message.{Message, room_of}
use room.Query.Filter.{QueryFilter, matches}
use room.Broker.Fanout.{Env}
use room.Poll.Filters.{
  Files, load_user_tier, load_user_event_filter, passes_tier, passes_event,
  apply_per_room_tier_filter, apply_per_room_event_filter,
}
use room.Poll.Commands.{
  sort_by_ts, up_to, apply_sort_and_limit, is_own, load_all, report, cmd_query_history,
}
use room.History.File.{load}
use room.Poll.Asked.{is_at, Reports, IsWanted, histories, IsAnswer}
use room.Poll.Tested.{IsWanted-iff}
use room.Poll.Sorted.{sort_by_ts-IsSorted, sort_by_ts-stable, up_to-IsLimit, report-Reports}

module _ {A : Type 0} where
  keep-keep : (p q : A → Bool) (xs : List A) → keep p (keep q xs) ≡ keep (λ x. q x && p x) xs
  keep-keep p q [] = refl
  keep-keep p q (x ∷ xs) = ground (arith, keep-keep p q xs)

  keep-true : (xs : List A) → keep (λ x. true) xs ≡ xs
  keep-true [] = refl
  keep-true (x ∷ xs) = ap (◌∷◌ x) (keep-true xs)

  keep_cong : (p q : A → Bool) → ((x : A) → p x ≡ q x) → (xs : List A) → keep p xs ≡ keep q xs
  keep_cong p q e [] = refl
  keep_cong p q e (x ∷ xs) = ground (arith, e x, keep_cong p q e xs)

-- What a map collected from the rooms holds for a room.
get-map :
    {V : Type 0}
    → (g : String → V) (default : V) (k : String) (room_ids : List String)
    → unwrap_or (get k (map (λ r. (r, g r)) room_ids)) default
      ≡ (if set_contains k room_ids then g k else default)
unfolding get set_contains
get-map g default k [] = refl
get-map g default k (r ∷ room_ids) = elim (Bool-cases (r == k)) [
  | inl e ↦ rw (get, set_contains, e) (ap g ((==_iff r k).0 e))
  | inr e ↦ rw (get, set_contains, e) (get-map g default k room_ids)
]

module _ {J : Type 0} (alphanumeric : ℕ → Bool) (files : Files) (room_ids : List String)
    (username : String) where
  -- The user's tier lets the message pass, and so does the event filter; a room that was not asked for
  -- has neither.
  unfoldable is_let_through : Message J → Bool
  is_let_through m =
      let asked = set_contains (room_of m) room_ids in
      passes_tier alphanumeric (if asked then load_user_tier files (room_of m) username else full)
        username m
      && passes_event
          (if asked then load_user_event_filter files (room_of m) username else all_events) m

  -- All that the code tests of a message, in one.
  unfoldable tested : QueryFilter → Message J → Bool
  tested f m =
      matches alphanumeric f m (room_of m)
      && is_own username m
      && (f.public_only || is_let_through m)

  tested_iff :
      (f : QueryFilter) (m : Message J)
      → (tested f m ≡ true) ↔ IsWanted alphanumeric files room_ids username f m
  unfolding tested is_let_through
  tested_iff f m = IsWanted-iff alphanumeric files room_ids username m f

  per_room_filters :
      (ms : List (Message J))
      → apply_per_room_event_filter files
          (apply_per_room_tier_filter alphanumeric files ms room_ids username)
          room_ids
          username
        ≡ keep is_let_through ms
  unfolding apply_per_room_event_filter apply_per_room_tier_filter is_let_through
  per_room_filters ms =
      keep-keep
        (λ m.
          let filters = map (λ r. (r, load_user_event_filter files r username)) room_ids in
          passes_event (unwrap_or (get (room_of m) filters) all_events) m)
        (λ m.
          let tiers = map (λ r. (r, load_user_tier files r username)) room_ids in
          passes_tier alphanumeric (unwrap_or (get (room_of m) tiers) full) username m)
        ms
      ∙ keep_cong
          (λ m.
            let tiers = map (λ r. (r, load_user_tier files r username)) room_ids in
            let filters = map (λ r. (r, load_user_event_filter files r username)) room_ids in
            passes_tier alphanumeric (unwrap_or (get (room_of m) tiers) full) username m
            && passes_event (unwrap_or (get (room_of m) filters) all_events) m)
          is_let_through
          (λ m.
            rw
              (
                get-map (λ r. load_user_tier files r username) full (room_of m) room_ids,
                get-map (λ r. load_user_event_filter files r username) all_events (room_of m)
                    room_ids,
              )
              refl)
          ms

  public_or_filtered :
      (public_only : Bool) (ms : List (Message J))
      → (if public_only
          then ms
          else apply_per_room_event_filter files
              (apply_per_room_tier_filter alphanumeric files ms room_ids username)
              room_ids
              username)
        ≡ keep (λ m. public_only || is_let_through m) ms
  public_or_filtered true ms = sym (keep-true ms)
  public_or_filtered false ms = per_room_filters ms

  filtered-keep :
      (f : QueryFilter) (all : List (Message J))
      → let matching =
          keep (is_own username) (keep (λ m. matches alphanumeric f m (room_of m)) all) in
        (if f.public_only
          then matching
          else apply_per_room_event_filter files
              (apply_per_room_tier_filter alphanumeric files matching room_ids username)
              room_ids
              username)
        ≡ keep (tested f) all
  unfolding tested
  filtered-keep f all =
      let asked = λ (m : Message J). matches alphanumeric f m (room_of m) in
      public_or_filtered f.public_only (keep (is_own username) (keep asked all))
      ∙ ap (keep (λ m. f.public_only || is_let_through m)) (keep-keep (is_own username) asked all)
      ∙ keep-keep (λ m. f.public_only || is_let_through m) (λ m. asked m && is_own username m) all

  load_all-histories :
      (env : Env J) (chats : String → Option String) (rs : List String)
      → load_all env chats rs ≡ histories alphanumeric files room_ids username env chats rs
  unfolding load_all
  load_all-histories env chats [] = refl
  load_all-histories env chats (r ∷ rs) =
      ap (λ ms. load env (chats r) ++ ms) (load_all-histories env chats rs)

  -- The history mode answers with the messages that are wanted and no others, sorted by their timestamps
  -- in the order asked for, messages of one timestamp in the order in which the rooms hold them, up to
  -- the limit, or with an error where one message was asked for and is not among them. A message is wanted
  -- where it satisfies the filter, is no direct message between others, and, unless only public messages
  -- are asked for, passes the subscription and the event filter that the files of its room hold for the
  -- user, where the query is about that room and they can be read.
  pub cmd_query_history_lem :
      (env : Env J) (chats : String → Option String) (f : QueryFilter)
      → IsAnswer alphanumeric files room_ids username env chats f
          (cmd_query_history alphanumeric env files chats room_ids username f)
  unfolding cmd_query_history apply_sort_and_limit
  cmd_query_history_lem env chats f =
      let all = load_all env chats room_ids in
      let sorted = sort_by_ts f.ascending (keep (tested f) all) in
      let (rest, cut, limited) = up_to-IsLimit f.limit sorted in
      record {
        is_wanted = tested f;
        wanted = λ m. tested_iff f m;
        sorted = sorted;
        in_order = sort_by_ts-IsSorted f.ascending (keep (tested f) all);
        complete = λ t.
            sort_by_ts-stable f.ascending t (keep (tested f) all)
            ∙ ap (λ ms. keep (is_at t) (keep (tested f) ms))
                (load_all-histories env chats room_ids);
        shown = up_to f.limit sorted;
        left_out = rest;
        cut = cut;
        limited = limited;
        reported =
            subst (Reports f.target_id (up_to f.limit sorted))
              (sym
                (ap (λ ms. report f.target_id (apply_sort_and_limit ms f)) (filtered-keep f all)))
              (report-Reports f.target_id (up_to f.limit sorted));
      }
