-- ===== src/Base/Lists.antt =====
-- Lists by native numbers, under the library's names, and predicates on lists.
use Prim.Native.Nat.{ℕ, zero, suc, ◌+◌}
use mathlib.Core.Path.{refl, ◌≡◌, sym, ap, subst}
use mathlib.Core.Bool.{Bool, true, false, ◌||◌}
use mathlib.Core.Logic.{◌≢◌, inl, inr}
use mathlib.Core.List.{List, [], ◌∷◌, ◌++◌, map}
use mathlib.Core.Option.{Option, none, some, none-ne-some, some-injective}
use native.Mathlib.Omega.{arith}
use room.Base.Tests.{if◌then◌else◌, Bool-cases}

module _ {ℓ} {A : Type ℓ} where
  abbrev pub length : List A → ℕ
  length [] = 0
  length (x ∷ xs) = suc (length xs)

  abbrev pub get_elem? : List A → ℕ → Option A
  get_elem? [] i = none
  get_elem? (x ∷ xs) zero = some x
  get_elem? (x ∷ xs) (suc i) = get_elem? xs i

  abbrev pub drop : ℕ → List A → List A
  drop zero xs = xs
  drop (suc n) [] = []
  drop (suc n) (x ∷ xs) = drop n xs

  abbrev pub is_empty : List A → Bool
  is_empty [] = true
  is_empty (x ∷ xs) = false

  -- `iter().filter(p)`
  abbrev pub keep : (A → Bool) → List A → List A
  keep p [] = []
  keep p (x ∷ xs) = let rest = keep p xs in if p x then x ∷ rest else rest

  -- `iter().any(p)`
  abbrev pub any : (A → Bool) → List A → Bool
  any p [] = false
  any p (x ∷ xs) = p x || any p xs

  -- `iter().find(p)`
  abbrev pub find : (A → Bool) → List A → Option A
  find p [] = none
  find p (x ∷ xs) = let rest = find p xs in if p x then some x else rest

  pub keep-snoc :
      (p : A → Bool) (xs : List A) (x : A)
      → p x ≡ true
      → keep p (xs ++ (x ∷ [])) ≡ keep p xs ++ (x ∷ [])
  keep-snoc p [] x e = rw e
  keep-snoc p (y ∷ ys) x e = elim (Bool-cases (p y)) [
    | inl f ↦ rw f (ap (◌∷◌ y) (keep-snoc p ys x e))
    | inr f ↦ rw f (keep-snoc p ys x e)
  ]

  abbrev pub All {κ} : (A → Type κ) → List A → Type κ
  All P [] = Unit
  All P (x ∷ xs) = P x × All P xs

  pub append_assoc : (xs ys zs : List A) → (xs ++ ys) ++ zs ≡ xs ++ (ys ++ zs)
  append_assoc [] ys zs = refl
  append_assoc (x ∷ xs) ys zs = ap (◌∷◌ x) (append_assoc xs ys zs)

  pub append_nil : (xs : List A) → xs ++ [] ≡ xs
  append_nil [] = refl
  append_nil (x ∷ xs) = ap (◌∷◌ x) (append_nil xs)

  pub All-get_elem? {κ} :
      (P : A → Type κ) (xs : List A) (k : ℕ) (x : A) → All P xs → get_elem? xs k ≡ some x → P x
  All-get_elem? P [] k x h e = absurd (none-ne-some x e)
  All-get_elem? P (y ∷ ys) zero x h e = subst P (some-injective y x e) h.0
  All-get_elem? P (y ∷ ys) (suc k) x h e = All-get_elem? P ys k x h.1 e

  pub length-append : (xs ys : List A) → length (xs ++ ys) ≡ length xs + length ys
  length-append [] ys = omega arith
  length-append (x ∷ xs) ys = omega (arith, length-append xs ys)

  pub All-append {κ} : (P : A → Type κ) (xs ys : List A) → All P xs → All P ys → All P (xs ++ ys)
  All-append P [] ys hx hy = hy
  All-append P (x ∷ xs) ys hx hy = (hx.0, All-append P xs ys hx.1 hy)

  pub any-All : (p : A → Bool) (xs : List A) → any p xs ≡ false → All (λ x. p x ≡ false) xs
  any-All p [] h = tt
  any-All p (x ∷ xs) h = ground (arith, any-All p xs)

  -- Replaces the first item that passes, as a write through `iter_mut().find(p)` does.
  abbrev pub replace_first : (A → Bool) → A → List A → List A
  replace_first p y [] = []
  replace_first p y (x ∷ xs) = if p x then y ∷ xs else x ∷ replace_first p y xs

  pub All-append_right {κ} : (P : A → Type κ) (xs ys : List A) → All P (xs ++ ys) → All P ys
  All-append_right P [] ys h = h
  All-append_right P (x ∷ xs) ys h = All-append_right P xs ys h.1

  pub replace_first-All {κ} :
      (P : A → Type κ) (p : A → Bool) (y : A) (xs : List A)
      → P y
      → All P xs
      → All P (replace_first p y xs)
  replace_first-All P p y [] hy hs = tt
  replace_first-All P p y (x ∷ xs) hy hs = elim (Bool-cases (p x)) [
    | inl h ↦ rw h (hy, hs.1)
    | inr h ↦ rw h (hs.0, replace_first-All P p y xs hy hs.1)
  ]

  -- The first item that passes, with what stands before and behind it.
  pub record Found (p : A → Bool) (xs : List A) (x : A) : Type ℓ where
    pub before : List A
    pub behind : List A
    pub parts : xs ≡ before ++ (x ∷ behind)
    pub replaced : (y : A) → replace_first p y xs ≡ before ++ (y ∷ behind)
    pub first : All (λ z. p z ≡ false) before
    pub passes : p x ≡ true

  pub find-Found : (p : A → Bool) (xs : List A) (x : A) → find p xs ≡ some x → Found p xs x
  find-Found p [] x e = cc
  find-Found p (y ∷ ys) x e = elim (Bool-cases (p y)) [
    | inl h ↦
        let same = some-injective y x (rw h at e) in
        record {
          before = [];
          behind = ys;
          parts = rw same;
          replaced = λ z. rw h;
          first = tt;
          passes = rw (← same) h;
        }
    | inr h ↦
        let f = find-Found p ys x (rw h at e) in
        record {
          before = y ∷ f.before;
          behind = f.behind;
          parts = ap (◌∷◌ y) f.parts;
          replaced = λ z. rw h (ap (◌∷◌ y) (f.replaced z));
          first = (h, f.first);
          passes = f.passes;
        }
  ]

  pub All-map {κ} :
      (P : A → Type κ) (f : A → A)
      → ((x : A) → P x → P (f x))
      → (xs : List A) → All P xs
      → All P (map f xs)
  All-map P f h [] hs = tt
  All-map P f h (x ∷ xs) hs = (h x hs.0, All-map P f h xs hs.1)

  pub Found-All {κ} :
      (P : A → Type κ) (p : A → Bool) (xs : List A) (x : A) → Found p xs x → All P xs → P x
  Found-All P p xs x f hs =
      (All-append_right P f.before (x ∷ f.behind) (subst (All P) f.parts hs)).0

  -- No item stands twice.
  abbrev pub Distinct : List A → Type ℓ
  Distinct [] = Unit
  Distinct (x ∷ xs) = All (λ y. y ≢ x) xs × Distinct xs

  pub Distinct-concat :
      (x : A) (xs : List A) → Distinct xs → All (λ y. y ≢ x) xs → Distinct (xs ++ (x ∷ []))
  Distinct-concat x [] d h = (tt, tt)
  Distinct-concat x (y ∷ ys) d h = (
    All-append (λ z. z ≢ y) ys (x ∷ []) d.0 ((λ e. h.0 (sym e)), tt),
    Distinct-concat x ys d.1 h.1,
  )
