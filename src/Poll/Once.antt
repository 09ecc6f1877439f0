-- ===== src/Poll/Once.antt =====
-- Every message is polled once (`poll_messages` of crates/room-cli/src/oneshot/poll/mod.rs).
use mathlib.Core.Path.{subst}
use mathlib.Core.Option.{some-injective}
use room.Base.{
  append_assoc, append_nil, String, ◌≡◌, ◌⊎◌, inl, inr, refl, sym, ap, ◌∙◌, false, Option, none,
  some, List, [], ◌∷◌, ◌++◌, map, ◌==◌, ==_iff, keep, drop, length, Distinct, Option-cases,
}
use room.Base.Text.{is_empty_text}
use room.Base.Text.Blank.{trim}
use room.Protocol.Message.{Message, id}
use room.Broker.Fanout.{Env}
use room.History.File.{load}
use room.Poll.Cursor.{
  read_cursor, write_cursor, last, seen_by, start_at, effective_since, poll_messages,
}
use room.Poll.Parts.{
  keep-split, last-none, last-append, last-keep, position-front, add_one, HasGoodIds, All_at,
  Distinct-front, HasGoodIds-prefix,
}

module _ {J : Type 0} where
  module _ (env : Env J) (viewer host : Option String) where
    -- A room that is polled while messages are appended to it: the chat file, the cursor file, and the
    -- messages that were polled so far. The cursor file is written without an error.
    pub data IsPolled : Option String → Option String → List (Message J) → Type 0 where
      start : (chat : Option String) → IsPolled chat none []
      grows :
          (chat chat' cursor : Option String) (polled more : List (Message J))
          → load env chat' ≡ load env chat ++ more
          → IsPolled chat cursor polled
          → IsPolled chat' cursor polled
      polls :
          (chat cursor cursor' : Option String) (polled result : List (Message J))
          → poll_messages env none chat cursor viewer host none ≡ (some result, cursor')
          → IsPolled chat cursor polled
          → IsPolled chat cursor' (polled ++ result)

    -- What the cursor stands for: nothing was polled, or all that is visible up to a message.
    IsAt : Option String → List (Message J) → List (Message J) → Type 0
    IsAt cursor h polled =
        ((read_cursor cursor ≡ none) × (polled ≡ []))
        ⊎ ((front behind : List (Message J)) × (m : Message J) × (h ≡ front ++ (m ∷ behind))
            × (read_cursor cursor ≡ some (id m))
            × (polled ≡ keep (seen_by viewer host) (front ++ (m ∷ []))))

    rest_of : Option String → List (Message J) → List (Message J)
    rest_of cursor h = keep (seen_by viewer host) (drop (start_at (read_cursor cursor) h) h)

    IsAt-rest_of :
        (cursor : Option String) (h polled : List (Message J))
        → Distinct (map id h)
        → IsAt cursor h polled
        → polled ++ rest_of cursor h ≡ keep (seen_by viewer host) h
    unfolding IsAt rest_of start_at
    IsAt-rest_of cursor h polled d (inl (at_none, nothing)) = rw (nothing, at_none) refl
    IsAt-rest_of cursor h polled d (inr (front, behind, m, parts, at_m, polled_so)) =
        let front_differs =
          Distinct-front front m behind (subst (λ z. Distinct (map id z)) parts d) in
        let (i, rest) =
          position-front (λ x. id x == id m) front m behind front_differs
            ((==_iff (id m) (id m)).1 refl) in
        rw (polled_so, at_m, parts, start_at, i, add_one (length front), rest)
          (keep-split (seen_by viewer host) front m behind)

    IsAt-grows :
        (cursor : Option String) (h polled more : List (Message J))
        → IsAt cursor h polled
        → IsAt cursor (h ++ more) polled
    unfolding IsAt
    IsAt-grows cursor h polled more (inl nothing) = inl nothing
    IsAt-grows cursor h polled more (inr (front, behind, m, parts, at_m, so)) = inr (
      front,
      behind ++ more,
      m,
      ap (λ z. z ++ more) parts ∙ append_assoc front (m ∷ behind) more,
      at_m,
      so,
    )

    -- The cursor file after a poll that found a last message.
    read_cursor-id :
        (front : List (Message J)) (m : Message J) (behind : List (Message J))
        → HasGoodIds (front ++ (m ∷ behind))
        → read_cursor (some (id m)) ≡ some (id m)
    unfolding read_cursor
    read_cursor-id front m behind (d, good) =
        let (trimmed, filled) =
          All_at (λ m. (trim (id m) ≡ id m) × (is_empty_text (id m) ≡ false)) front m behind good in
        rw (trimmed, filled) refl

    IsAt-last :
        (cursor : Option String) (h polled : List (Message J)) (m : Message J)
        → HasGoodIds h
        → IsAt cursor h polled
        → last (rest_of cursor h) ≡ some m
        → IsAt (some (id m)) h (polled ++ rest_of cursor h)
    unfolding IsAt
    IsAt-last cursor h polled m good at_h e =
        let whole = IsAt-rest_of cursor h polled good.0 at_h in
        let (front, behind, parts, unseen) =
          last-keep (seen_by viewer host) h m
            (rw (← whole) (last-append polled (rest_of cursor h) m e)) in
        inr (
          front,
          behind,
          m,
          parts,
          read_cursor-id front m behind (subst HasGoodIds parts good),
          whole
              ∙ ap (keep (seen_by viewer host)) parts
              ∙ sym (keep-split (seen_by viewer host) front m behind)
              ∙ rw unseen (append_nil (keep (seen_by viewer host) (front ++ (m ∷ [])))),
        )

    poll-rest_of :
        (chat cursor : Option String)
        → ((last (rest_of cursor (load env chat)) ≡ none)
            × (poll_messages env none chat cursor viewer host none
                ≡ (some (rest_of cursor (load env chat)), cursor)))
          ⊎ ((m : Message J) × (last (rest_of cursor (load env chat)) ≡ some m)
              × (poll_messages env none chat cursor viewer host none
                  ≡ (some (rest_of cursor (load env chat)), some (id m))))
    unfolding poll_messages rest_of effective_since write_cursor
    poll-rest_of chat cursor = elim (Option-cases (last (rest_of cursor (load env chat)))) [
      | inl e ↦ inl (e, rw (poll_messages, e) refl)
      | inr (m, e) ↦ inr (m, e, rw (poll_messages, e) refl)
    ]

    IsAt-poll :
        (chat cursor cursor' : Option String) (polled result : List (Message J))
        → HasGoodIds (load env chat)
        → IsAt cursor (load env chat) polled
        → poll_messages env none chat cursor viewer host none ≡ (some result, cursor')
        → (result ≡ rest_of cursor (load env chat))
          × IsAt cursor' (load env chat) (polled ++ result)
    IsAt-poll chat cursor cursor' polled result good at_h poll = elim (poll-rest_of chat cursor) [
      | inl (e, so) ↦
          let both = sym so ∙ poll in
          let same = some-injective (rest_of cursor (load env chat)) result (ap (λ t. t.0) both) in
          let nothing = sym same ∙ last-none (rest_of cursor (load env chat)) e in
          (
            sym same,
            subst (λ c. IsAt c (load env chat) (polled ++ result)) (ap (λ t. t.1) both)
                (rw (nothing, append_nil polled) at_h),
          )
      | inr (m, e, so) ↦
          let both = sym so ∙ poll in
          let same = some-injective (rest_of cursor (load env chat)) result (ap (λ t. t.0) both) in
          (
            sym same,
            subst (λ c. IsAt c (load env chat) (polled ++ result)) (ap (λ t. t.1) both)
                (subst (λ r. IsAt (some (id m)) (load env chat) (polled ++ r)) same
                  (IsAt-last cursor (load env chat) polled m good at_h e)),
          )
    ]

    -- Where the ids are good, what has been polled is what the cursor stands for.
    IsPolled-IsAt :
        (chat cursor : Option String) (polled : List (Message J))
        → IsPolled chat cursor polled
        → HasGoodIds (load env chat)
        → IsAt cursor (load env chat) polled
    unfolding IsAt read_cursor
    IsPolled-IsAt chat cursor polled (start c) good = inl (refl, refl)
    IsPolled-IsAt chat cursor polled (grows old c cu p more grown r) good =
        let good_old = HasGoodIds-prefix (load env old) more (subst HasGoodIds grown good) in
        subst (λ h. IsAt cu h p) (sym grown)
          (IsAt-grows cu (load env old) p more (IsPolled-IsAt old cu p r good_old))
    IsPolled-IsAt chat cursor polled (polls c before after p result poll r) good =
        (IsAt-poll c before after p result good (IsPolled-IsAt c before p r good) poll).1

    -- However polls and appends follow one another, a poll succeeds and returns each message that the
    -- viewer may see and that was not polled before, once and in order: with what was polled before it,
    -- its result is the visible part of the history. The ids of the messages are distinct and have no
    -- blanks around them, the cursor file starts out missing, and its writes succeed.
    pub polled_once :
        (chat cursor : Option String) (polled : List (Message J))
        → IsPolled chat cursor polled
        → HasGoodIds (load env chat)
        → (result : List (Message J)) × (cursor' : Option String) × (poll_messages env none chat
              cursor viewer host none
            ≡ (some result, cursor'))
          × (polled ++ result ≡ keep (seen_by viewer host) (load env chat))
    polled_once chat cursor polled r good =
        let whole =
          IsAt-rest_of cursor (load env chat) polled good.0
            (IsPolled-IsAt chat cursor polled r good) in
        elim (poll-rest_of chat cursor) [
          | inl (e, so) ↦ (rest_of cursor (load env chat), cursor, so, whole)
          | inr (m, e, so) ↦ (rest_of cursor (load env chat), some (id m), so, whole)
        ]
