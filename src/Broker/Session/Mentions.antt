-- ===== src/Broker/Session/Mentions.antt =====
-- Who is subscribed by a mention (`subscribe_mentioned` of crates/room-daemon/src/broker/session.rs).
use room.Base.{
  String, ◌≡◌, ◌⊎◌, ◌↔◌, refl, sym, ◌∙◌, ap, none, Bool, true, false, ◌&&◌, Option, some, List, [],
  ◌∷◌, arith, if◌then◌else◌, is_empty, ◌==◌, ==_iff, Bool-cases, inl, inr,
}
use room.Base.Dict.{Dict, get, insert, get-insert, set_contains, any_value}
use room.Protocol.Events.{SubscriptionTier, mentions_only, unsubscribed, full}
use room.Protocol.Message.{Message, mentions}
use room.Broker.Room.{Room, Env, persist_subscriptions}
use room.Broker.Session.{is_dominated, is_registered, subscribe_each, subscribe_mentioned}

empty-set_contains :
    (x : String) (xs : List String) → is_empty xs ≡ true → set_contains x xs ≡ false
unfolding set_contains
empty-set_contains x [] e = refl
empty-set_contains x (y ∷ ys) e = absurd (ground (arith, e))

module _ (token_map : Dict String) (user : String) where
  -- What the loop tests.
  abbrev chosen : List String → Option SubscriptionTier → Bool
  chosen mentioned before =
      set_contains user mentioned && is_registered token_map user && is_dominated before

  subscribe_each_lem :
      (mentioned : List String) (subs : Dict SubscriptionTier)
      → let (subs', newly) = subscribe_each token_map mentioned subs in
        let pick = chosen mentioned (get user subs) in
        (get user subs' ≡ (if pick then some mentions_only else get user subs))
        × (set_contains user newly ≡ pick)
  unfolding subscribe_each set_contains
  subscribe_each_lem [] subs = (refl, refl)
  subscribe_each_lem (m ∷ mentioned) subs =
      let skipped = subscribe_each_lem mentioned subs in
      let subscribed = subscribe_each_lem mentioned (insert m mentions_only subs) in
      let after = get-insert m user mentions_only subs in
      elim (Bool-cases (m == user)) [
        | inl e ↦
            let same = (==_iff m user).0 e in
            let known = ap (is_registered token_map) same in
            let before = ap (λ u. get u subs) same in
            ground
              (arith, skipped.0, skipped.1, subscribed.0, subscribed.1, after, e, known, before)
        | inr e ↦ ground (arith, skipped.0, skipped.1, subscribed.0, subscribed.1, after, e)
      ]

-- One of the tokens stands for the user.
abbrev pub OwnsToken : String → Dict String → Type 0
OwnsToken user [] = ⊥
OwnsToken user ((token, owner) ∷ token_map) = (owner ≡ user) ⊎ OwnsToken user token_map

-- The user is mentioned, has a token of the room, and has no subscription or has given it up.
pub record IsChosen (user : String) (mentioned : List String) (token_map : Dict String)
    (before : Option SubscriptionTier) : Type 0 where
  pub named : set_contains user mentioned ≡ true
  pub member : OwnsToken user token_map
  pub unserved : (before ≡ none) ⊎ (before ≡ some unsubscribed)

OwnsToken-iff :
    (user : String) (token_map : Dict String)
    → (is_registered token_map user ≡ true) ↔ OwnsToken user token_map
unfolding any_value
OwnsToken-iff user [] = (λ h. absurd (ground arith), λ h. absurd h)
OwnsToken-iff user ((token, owner) ∷ token_map) =
    let rest = OwnsToken-iff user token_map in
    let same = ==_iff owner user in
    (
      λ h. elim (Bool-cases (owner == user)) [
        | inl e ↦ inl (same.0 e)
        | inr e ↦ inr (rest.0 (ground (arith, h, e)))
      ],
      λ h. elim h [
        | inl e ↦ let t = same.1 e in ground (arith, t)
        | inr r ↦ let t = rest.1 r in ground (arith, t)
      ],
    )

is_dominated_iff :
    (before : Option SubscriptionTier)
    → (is_dominated before ≡ true) ↔ ((before ≡ none) ⊎ (before ≡ some unsubscribed))
is_dominated_iff none = (λ h. inl refl, λ h. refl)
is_dominated_iff (some unsubscribed) = (λ h. inr refl, λ h. refl)
is_dominated_iff (some mentions_only) = (
  λ h. absurd (ground arith),
  λ h. elim h [ inl e ↦ absurd (ground (arith, e)) | inr e ↦ absurd (ground (arith, e)) ],
)
is_dominated_iff (some full) = (
  λ h. absurd (ground arith),
  λ h. elim h [ inl e ↦ absurd (ground (arith, e)) | inr e ↦ absurd (ground (arith, e)) ],
)

chosen_iff :
    (user : String) (mentioned : List String) (token_map : Dict String)
    (before : Option SubscriptionTier)
    → (chosen token_map user mentioned before ≡ true) ↔ IsChosen user mentioned token_map before
chosen_iff user mentioned token_map before =
    let owner = OwnsToken-iff user token_map in
    let free = is_dominated_iff before in
    (
      λ h. record {
        named = ground (arith, h);
        member = owner.0 (ground (arith, h));
        unserved = free.0 (ground (arith, h));
      },
      λ c.
          let known = owner.1 c.member in
          let unserved = free.1 c.unserved in ground (arith, c.named, known, unserved),
    )

-- The loop and the files: who is reported, and the subscription of each user after it.
subscribed_lem :
    {J : Type 0} (env : Env J) (msg : Message J) (room : Room) (user : String)
    → let (newly, room') = subscribe_mentioned env msg room in
      let before = get user room.state.auth.subscription_map in
      let pick = chosen room.state.auth.token_map user (mentions env.alphanumeric msg) before in
      (set_contains user newly ≡ pick)
      × (get user room'.state.auth.subscription_map ≡ (if pick then some mentions_only else before))
unfolding subscribe_mentioned persist_subscriptions set_contains
subscribed_lem env msg room user =
    let mentioned = mentions env.alphanumeric msg in
    let subs = room.state.auth.subscription_map in
    let (after, reported) = subscribe_each_lem room.state.auth.token_map user mentioned subs in
    (
      reported,
      elim (Bool-cases (is_empty (subscribe_each room.state.auth.token_map mentioned subs).1)) [
        | inl e ↦
            let none_new =
              empty-set_contains user (subscribe_each room.state.auth.token_map mentioned subs).1
                e in
            ground (arith, e, reported, none_new)
        | inr e ↦ ground (arith, e, after)
      ],
    )

-- After a message exactly the users whom it mentions, who have a token of the room and no subscription or
-- have given it up, are reported as newly subscribed; they have the tier mentions_only, and everyone
-- else's subscription is as before.
pub subscribe_mentioned_lem :
    {J : Type 0} (env : Env J) (msg : Message J) (room : Room) (user : String)
    → let (newly, room') = subscribe_mentioned env msg room in
      let before = get user room.state.auth.subscription_map in
      ((set_contains user newly ≡ true)
        ↔ IsChosen user (mentions env.alphanumeric msg) room.state.auth.token_map before)
      × (get user room'.state.auth.subscription_map
          ≡ (if set_contains user newly then some mentions_only else before))
subscribe_mentioned_lem env msg room user =
    let (reported, after) = subscribed_lem env msg room user in
    let before = get user room.state.auth.subscription_map in
    let picked = chosen_iff user (mentions env.alphanumeric msg) room.state.auth.token_map before in
    ((λ h. picked.0 (sym reported ∙ h), λ h. reported ∙ picked.1 h), rw reported after)
