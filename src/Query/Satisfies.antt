-- ===== src/Query/Satisfies.antt =====
-- What `QueryFilter::matches` of crates/room-daemon/src/query.rs decides.
use room.Base.{
  ℕ, ◌<◌, String, ◌≡◌, refl, Bool, true, false, not, ◌&&◌, Option, none, some, List, [], ◌∷◌,
  if◌then◌else◌, is_empty, any, ◌==◌, ==_iff, ltb, leb, nat_eq, ◌⊎◌, ◌↔◌, inl, inr, arith,
  Bool-cases,
}
use room.Base.Text.{contains}
use room.Base.Dict.{set_contains}
use room.Protocol.Message.{Message, user, ts, seq, content, mentions, is_direct_message}
use room.Query.Filter.{QueryFilter, some_passes, each_passes, in_range, matches}

-- One of the names, where there are any.
abbrev Among : String → List String → Type 0
Among x xs = (xs ≡ []) ⊎ (any (λ y. y == x) xs ≡ true)

-- The constraint, where it is present, holds.
abbrev Where : {A : Type 0} → Option A → (A → Type 0) → Type 0
Where none P = Unit
Where (some a) P = P a

-- The value is present, and holds.
abbrev Has : {A : Type 0} → Option A → (A → Type 0) → Type 0
Has none P = ⊥
Has (some a) P = P a

-- The constraints on the numbers and the times of a message.
pub record InRange {J : Type 0} (f : QueryFilter) (msg : Message J) (room_id : String)
    : Type 0 where
  pub after : Where f.after_seq (λ (r, n). room_id ≡ r → Has (seq msg) (λ k. n < k))
  pub before : Where f.before_seq (λ (r, n). room_id ≡ r → Has (seq msg) (λ k. k < n))
  pub later : Where f.after_ts (λ t. t < ts msg)
  pub earlier : Where f.before_ts (λ t. ts msg < t)

-- All constraints, of which those on numbers and times count only without a `target_id`.
pub record Satisfies {J : Type 0} (alphanumeric : ℕ → Bool) (f : QueryFilter) (msg : Message J)
    (room_id : String) : Type 0 where
  pub in_room : Among room_id f.rooms
  pub by_user : Among (user msg) f.users
  pub open_to_all : f.public_only ≡ true → is_direct_message msg ≡ false
  pub has_text :
      Where f.content_search (λ needle. Has (content msg) (λ c. contains needle c ≡ true))
  pub has_match : Where f.content_regex (λ re. Has (content msg) (λ c. re c ≡ true))
  pub mentions_user : Where f.mention_user (λ u. set_contains u (mentions alphanumeric msg) ≡ true)
  pub exact : Where f.target_id (λ (r, n). (room_id ≡ r) × (seq msg ≡ some n))
  pub ranged : f.target_id ≡ none → InRange f msg room_id

Among-iff :
    (x : String) (xs : List String)
    → ((not (is_empty xs) && not (any (λ y. y == x) xs)) ≡ false) ↔ Among x xs
Among-iff x [] = (λ h. inl refl, λ h. refl)
Among-iff x (y ∷ ys) =
    (λ h. inr (ground arith), λ h. elim h [ inl e ↦ ground arith | inr e ↦ ground arith ])

Has-iff :
    {A : Type 0} (o : Option A) (p : A → Bool) (P : A → Type 0)
    → ((a : A) → (p a ≡ true) ↔ P a)
    → (some_passes o p ≡ true) ↔ Has o P
Has-iff none p P h = (λ e. absurd (ground arith), λ e. absurd e)
Has-iff (some a) p P h = h a

Where-iff :
    {A : Type 0} (o : Option A) (p : A → Bool) (P : A → Type 0)
    → ((a : A) → (p a ≡ true) ↔ P a)
    → (each_passes o p ≡ true) ↔ Where o P
Where-iff none p P h = (λ e. tt, λ e. refl)
Where-iff (some a) p P h = h a

in_room_iff :
    (room_id r : String) (b : Bool) (P : Type 0)
    → (b ≡ true) ↔ P
    → ((if room_id == r then b else true) ≡ true) ↔ (room_id ≡ r → P)
in_room_iff room_id r b P h = elim (Bool-cases (room_id == r)) [
  | inl e ↦ rw e (λ t _. h.0 t, λ f. h.1 (f ((==_iff room_id r).0 e)))
  | inr e ↦ rw e (λ t f. absurd (ground (arith, ==_iff room_id r, f, e)), λ f. refl)
]

gate : (a b : Bool) → ((if a then false else b) ≡ true) ↔ ((a ≡ false) × (b ≡ true))
gate true b = (λ h. absurd (ground arith), λ h. absurd (ground arith))
gate false b = (λ h. (refl, h), λ h. h.1)

must : (a b : Bool) → ((if not a then false else b) ≡ true) ↔ ((a ≡ true) × (b ≡ true))
must true b = (λ h. (refl, h), λ h. h.1)
must false b = (λ h. absurd (ground arith), λ h. absurd (ground arith))

ltb_iff : (m n : ℕ) → (ltb m n ≡ true) ↔ (m < n)
ltb_iff m n = (λ h. ground arith, λ h. ground arith)

not-leb_iff : (m n : ℕ) → (not (leb m n) ≡ true) ↔ (n < m)
not-leb_iff m n = (λ h. ground arith, λ h. ground arith)

same_number : (o : Option ℕ) (n : ℕ) → (some_passes o (λ k. nat_eq k n) ≡ true) ↔ (o ≡ some n)
same_number none n = (λ h. absurd (ground arith), λ h. absurd (ground arith))
same_number (some k) n = (λ h. ground arith, λ h. ground arith)

module _ {J : Type 0} (f : QueryFilter) (msg : Message J) (room_id : String) where
  after_iff :
      (each_passes f.after_seq
          (λ (r, n). if room_id == r then some_passes (seq msg) (λ k. ltb n k) else true)
        ≡ true)
      ↔ Where f.after_seq (λ (r, n). room_id ≡ r → Has (seq msg) (λ k. n < k))
  after_iff =
      Where-iff f.after_seq _ _
        (λ (r, n). in_room_iff room_id r _ _ (Has-iff (seq msg) _ _ (λ k. ltb_iff n k)))

  before_iff :
      (each_passes f.before_seq
          (λ (r, n). if room_id == r then some_passes (seq msg) (λ k. ltb k n) else true)
        ≡ true)
      ↔ Where f.before_seq (λ (r, n). room_id ≡ r → Has (seq msg) (λ k. k < n))
  before_iff =
      Where-iff f.before_seq _ _
        (λ (r, n). in_room_iff room_id r _ _ (Has-iff (seq msg) _ _ (λ k. ltb_iff k n)))

  later_iff :
      (each_passes f.after_ts (λ t. not (leb (ts msg) t)) ≡ true)
      ↔ Where f.after_ts (λ t. t < ts msg)
  later_iff = Where-iff f.after_ts _ _ (λ t. not-leb_iff (ts msg) t)

  earlier_iff :
      (each_passes f.before_ts (λ t. not (leb t (ts msg))) ≡ true)
      ↔ Where f.before_ts (λ t. ts msg < t)
  earlier_iff = Where-iff f.before_ts _ _ (λ t. not-leb_iff t (ts msg))

  in_range_iff : (in_range f msg room_id ≡ true) ↔ InRange f msg room_id
  unfolding in_range
  in_range_iff = (
    λ h.
        let (a, h1) = (must _ _).0 h in
        let (b, h2) = (must _ _).0 h1 in
        let (c, h3) = (must _ _).0 h2 in
        let (d, h4) = (must _ _).0 h3 in
        record {
          after = after_iff.0 a;
          before = before_iff.0 b;
          later = later_iff.0 c;
          earlier = earlier_iff.0 d;
        },
    λ h. (must _ _).1 (
      after_iff.1 h.after,
      (must _ _).1 (
        before_iff.1 h.before,
        (must _ _).1 (later_iff.1 h.later, (must _ _).1 (earlier_iff.1 h.earlier, refl)),
      ),
    ),
  )

  -- The end of `matches`, by the kind of target.
  abbrev ends : Option (String × ℕ) → Bool
  ends (some (r, n)) =
      if not (room_id == r)
      then false
      else if not (some_passes (seq msg) (λ k. nat_eq k n))
      then false
      else true
  ends none = in_range f msg room_id

  abbrev Ends : Option (String × ℕ) → Type 0
  Ends target =
      Where target (λ (r, n). (room_id ≡ r) × (seq msg ≡ some n))
      × (target ≡ none → InRange f msg room_id)

  ends_iff : (target : Option (String × ℕ)) → (ends target ≡ true) ↔ Ends target
  ends_iff none = (λ h. (tt, λ _. in_range_iff.0 h), λ h. in_range_iff.1 (h.1 refl))
  ends_iff (some (r, n)) = (
    λ h.
        let (a, h1) = (must _ _).0 h in
        let (b, h2) = (must _ _).0 h1 in
        (((==_iff room_id r).0 a, (same_number (seq msg) n).0 b), λ e. absurd (ground arith)),
    λ h.
        (must _ _).1
          ((==_iff room_id r).1 h.0.0, (must _ _).1 ((same_number (seq msg) n).1 h.0.1, refl)),
  )

open_iff : (p d : Bool) → ((p && d) ≡ false) ↔ (p ≡ true → d ≡ false)
open_iff true d = (λ h _. h, λ h. h refl)
open_iff false d = (λ h e. absurd (ground arith), λ h. refl)

true_iff : (b : Bool) → (b ≡ true) ↔ (b ≡ true)
true_iff b = (λ h. h, λ h. h)

-- A message passes the filter exactly when it satisfies each constraint that is present. Those on
-- numbers and times are not constraints where a target is given: then the room and the number of the
-- target are.
pub matches_iff :
    {J : Type 0} (alphanumeric : ℕ → Bool) (f : QueryFilter) (msg : Message J) (room_id : String)
    → (matches alphanumeric f msg room_id ≡ true) ↔ Satisfies alphanumeric f msg room_id
unfolding matches
matches_iff alphanumeric f msg room_id =
    let text =
      Where-iff f.content_search (λ needle. some_passes (content msg) (λ c. contains needle c)) _
        (λ needle. Has-iff (content msg) (λ c. contains needle c) _ (λ c. true_iff _)) in
    let regex =
      Where-iff f.content_regex (λ re. some_passes (content msg) re) _
        (λ re. Has-iff (content msg) re _ (λ c. true_iff _)) in
    let mention =
      Where-iff f.mention_user (λ u. set_contains u (mentions alphanumeric msg)) _
        (λ u. true_iff _) in
    (
      λ h.
          let (a, h1) = (gate _ _).0 h in
          let (b, h2) = (gate _ _).0 h1 in
          let (c, h3) = (gate _ _).0 h2 in
          let (d, h4) = (must _ _).0 h3 in
          let (e, h5) = (must _ _).0 h4 in
          let (g, h6) = (must _ _).0 h5 in
          let (i, j) = (ends_iff f msg room_id f.target_id).0 h6 in
          record {
            in_room = (Among-iff room_id f.rooms).0 a;
            by_user = (Among-iff (user msg) f.users).0 b;
            open_to_all = (open_iff f.public_only (is_direct_message msg)).0 c;
            has_text = text.0 d;
            has_match = regex.0 e;
            mentions_user = mention.0 g;
            exact = i;
            ranged = j;
          },
      λ s. (gate _ _).1 (
        (Among-iff room_id f.rooms).1 s.in_room,
        (gate _ _).1 (
          (Among-iff (user msg) f.users).1 s.by_user,
          (gate _ _).1 (
            (open_iff f.public_only (is_direct_message msg)).1 s.open_to_all,
            (must _ _).1 (
              text.1 s.has_text,
              (must _ _).1 (
                regex.1 s.has_match,
                (must _ _).1 (
                  mention.1 s.mentions_user,
                  (ends_iff f msg room_id f.target_id).1 (s.exact, s.ranged),
                ),
              ),
            ),
          ),
        ),
      ),
    )
