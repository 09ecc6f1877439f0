-- ===== src/Poll/Parts.antt =====
-- Lists of messages in parts, as `position` and `last` see them, and ids that are good for a cursor.

use mathlib.Core.Option.{none-ne-some, some-injective}
use room.Base.{
  append_assoc, ℕ, suc, ◌+◌, String, ◌≡◌, ◌≢◌, inl, inr, refl, sym, ap, ◌∙◌, Bool, true, false,
  none, some, List, [], ◌∷◌, ◌++◌, map, ◌==◌, ==_iff, keep, drop, length, All, Distinct, arith,
  Bool-cases, Option-cases,
}
use room.Base.Text.{is_empty_text}
use room.Base.Text.Blank.{trim}
use room.Protocol.Message.{Message, id}
use room.Poll.Cursor.{position, last}

module _ {A : Type 0} where
  keep-append : (p : A → Bool) (xs ys : List A) → keep p (xs ++ ys) ≡ keep p xs ++ keep p ys
  keep-append p [] ys = refl
  keep-append p (x ∷ xs) ys = elim (Bool-cases (p x)) [
    | inl h ↦ rw (h, keep-append p xs ys) refl
    | inr h ↦ rw (h, keep-append p xs ys) refl
  ]

  pub keep-split :
      (p : A → Bool) (xs : List A) (y : A) (ys : List A)
      → keep p (xs ++ (y ∷ [])) ++ keep p ys ≡ keep p (xs ++ (y ∷ ys))
  keep-split p xs y ys =
      sym (keep-append p (xs ++ (y ∷ [])) ys) ∙ ap (keep p) (append_assoc xs (y ∷ []) ys)

  pub last-none : (xs : List A) → last xs ≡ none → xs ≡ []
  last-none [] e = refl
  last-none (x ∷ xs) e = elim (Option-cases (last xs)) [
    | inl h ↦ absurd (none-ne-some x (sym (rw h at e)))
    | inr (y, h) ↦ absurd (none-ne-some y (sym (rw h at e)))
  ]

  pub last-append : (xs ys : List A) (y : A) → last ys ≡ some y → last (xs ++ ys) ≡ some y
  last-append [] ys y e = e
  last-append (x ∷ xs) ys y e = rw (last-append xs ys y e) refl

  -- The last item that passes, with what stands before and behind it.
  pub last-keep :
      (p : A → Bool) (xs : List A) (y : A)
      → last (keep p xs) ≡ some y
      → (front behind : List A) × (xs ≡ front ++ (y ∷ behind)) × (keep p behind ≡ [])
  last-keep p [] y e = absurd (none-ne-some y e)
  last-keep p (x ∷ xs) y e = elim (Bool-cases (p x)) [
    | inl h ↦ elim (Option-cases (last (keep p xs))) [
      | inl n ↦
          ([], xs, ap (λ z. z ∷ xs) (some-injective x y (rw (h, n) at e)), last-none (keep p xs) n)
      | inr (z, n) ↦
          let (f, b, same, rest) = last-keep p xs y (n ∙ (rw (h, n) at e)) in
          (x ∷ f, b, ap (◌∷◌ x) same, rest)
    ]
    | inr h ↦
        let (f, b, same, rest) = last-keep p xs y (rw h at e) in (x ∷ f, b, ap (◌∷◌ x) same, rest)
  ]

  pub position-front :
      (p : A → Bool) (front : List A) (y : A) (behind : List A)
      → All (λ x. p x ≡ false) front
      → p y ≡ true
      → (position p (front ++ (y ∷ behind)) ≡ some (length front))
        × (drop (suc (length front)) (front ++ (y ∷ behind)) ≡ behind)
  position-front p [] y behind none_of e = (rw e refl, refl)
  position-front p (x ∷ front) y behind none_of e =
      let (at_front, rest) = position-front p front y behind none_of.1 e in
      (rw (none_of.0, at_front) refl, rest)

pub add_one : (n : ℕ) → n + 1 ≡ suc n
add_one n = omega arith

module _ {J : Type 0} where
  -- The ids are distinct, not blank, and without blanks around them, as printed UUIDs are.
  abbrev pub HasGoodIds : List (Message J) → Type 0
  HasGoodIds h =
      Distinct (map id h) × All (λ m. (trim (id m) ≡ id m) × (is_empty_text (id m) ≡ false)) h

  All-map_at :
      (P : String → Type 0) (front : List (Message J)) (m : Message J) (behind : List (Message J))
      → All P (map id (front ++ (m ∷ behind)))
      → P (id m)
  All-map_at P [] m behind h = h.0
  All-map_at P (x ∷ front) m behind h = All-map_at P front m behind h.1

  pub All_at :
      (P : Message J → Type 0) (front : List (Message J)) (m : Message J)
      (behind : List (Message J))
      → All P (front ++ (m ∷ behind))
      → P m
  All_at P [] m behind h = h.0
  All_at P (x ∷ front) m behind h = All_at P front m behind h.1

  pub Distinct-front :
      (front : List (Message J)) (m : Message J) (behind : List (Message J))
      → Distinct (map id (front ++ (m ∷ behind)))
      → All (λ x. (id x == id m) ≡ false) front
  Distinct-front [] m behind d = tt
  Distinct-front (x ∷ front) m behind d =
      let differs = All-map_at (λ i. i ≢ id x) front m behind d.0 in
      (ground (arith, ==_iff (id x) (id m), differs), Distinct-front front m behind d.1)

  All-map_prefix :
      (P : String → Type 0) (xs ys : List (Message J))
      → All P (map id (xs ++ ys))
      → All P (map id xs)
  All-map_prefix P [] ys h = tt
  All-map_prefix P (x ∷ xs) ys h = (h.0, All-map_prefix P xs ys h.1)

  Distinct-prefix : (xs ys : List (Message J)) → Distinct (map id (xs ++ ys)) → Distinct (map id xs)
  Distinct-prefix [] ys d = tt
  Distinct-prefix (x ∷ xs) ys d =
      (All-map_prefix (λ i. i ≢ id x) xs ys d.0, Distinct-prefix xs ys d.1)

  All-prefix : (P : Message J → Type 0) (xs ys : List (Message J)) → All P (xs ++ ys) → All P xs
  All-prefix P [] ys h = tt
  All-prefix P (x ∷ xs) ys h = (h.0, All-prefix P xs ys h.1)

  pub HasGoodIds-prefix : (xs ys : List (Message J)) → HasGoodIds (xs ++ ys) → HasGoodIds xs
  HasGoodIds-prefix xs ys (d, good) = (
    Distinct-prefix xs ys d,
    All-prefix (λ m. (trim (id m) ≡ id m) × (is_empty_text (id m) ≡ false)) xs ys good,
  )
