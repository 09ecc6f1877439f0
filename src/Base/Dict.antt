-- ===== src/Base/Dict.antt =====
-- `HashMap<String, V>` and `HashSet<String>`: lists in which no key stands twice. The order of a hash
-- map is not modelled: no lemma depends on it.
use room.Base.Tests.{if◌then◌else◌, ◌==◌, ==_iff, Bool-cases, is_some}
use Prim.Native.String.{String}
use mathlib.Core.Path.{◌≡◌, refl, subst}
use mathlib.Core.Logic.{inl, inr}
use mathlib.Core.Bool.{not, Bool, true, false, ◌||◌}
use mathlib.Core.Option.{Option, none, some, some-injective}
use mathlib.Core.List.{List, [], ◌∷◌}
use native.Mathlib.Omega.{arith}

abbrev pub Dict {ℓ} : Type ℓ → Type ℓ
Dict V = List (String × V)

module _ {ℓ} {V : Type ℓ} where
  unfoldable pub get : String → Dict V → Option V
  get k [] = none
  get k ((j, v) ∷ d) = if j == k then some v else get k d

  abbrev pub contains_key : String → Dict V → Bool
  contains_key k d = is_some (get k d)

  unfoldable pub insert : String → V → Dict V → Dict V
  insert k v [] = (k, v) ∷ []
  insert k v ((j, w) ∷ d) = if j == k then (k, v) ∷ d else (j, w) ∷ insert k v d

  unfoldable pub remove : String → Dict V → Dict V
  remove k [] = []
  remove k ((j, w) ∷ d) = let rest = remove k d in if j == k then rest else (j, w) ∷ rest

  -- `retain(|_, v| p(v))`
  unfoldable pub retain : (V → Bool) → Dict V → Dict V
  retain p [] = []
  retain p ((j, w) ∷ d) = let rest = retain p d in if p w then (j, w) ∷ rest else rest

  -- `values().any(p)`
  unfoldable pub any_value : (V → Bool) → Dict V → Bool
  any_value p [] = false
  any_value p ((j, w) ∷ d) = p w || any_value p d

  pub get-insert :
      (k j : String) (v : V) (d : Dict V)
      → get j (insert k v d) ≡ (if k == j then some v else get j d)
  unfolding get insert
  get-insert k j v [] = refl
  get-insert k j v ((i, w) ∷ d) =
      ground (arith, ==_iff k j, ==_iff i k, ==_iff i j, get-insert k j v d)

  pub get-remove :
      (k j : String) (d : Dict V) → get j (remove k d) ≡ (if k == j then none else get j d)
  unfolding get remove
  get-remove k j [] = ground arith
  get-remove k j ((i, w) ∷ d) = ground (arith, ==_iff k j, ==_iff i k, ==_iff i j, get-remove k j d)

  -- A predicate of every entry.
  abbrev pub Entries {κ} : (String → V → Type κ) → Dict V → Type κ
  Entries P [] = Unit
  Entries P ((k, v) ∷ d) = P k v × Entries P d

  pub get-Entries {κ} :
      (P : String → V → Type κ) (k : String) (v : V) (d : Dict V)
      → Entries P d
      → get k d ≡ some v
      → P k v
  unfolding get
  get-Entries P k v [] h e = cc
  get-Entries P k v ((j, w) ∷ d) h e = elim (Bool-cases (j == k)) [
    | inl s ↦
        subst (λ x. P x v) ((==_iff j k).0 s) (subst (P j) (some-injective w v (rw s at e)) h.0)
    | inr n ↦ get-Entries P k v d h.1 (rw n at e)
  ]

  pub insert-Entries {κ} :
      (P : String → V → Type κ) (k : String) (v : V) (d : Dict V)
      → P k v
      → Entries P d
      → Entries P (insert k v d)
  unfolding insert
  insert-Entries P k v [] p h = (p, tt)
  insert-Entries P k v ((j, w) ∷ d) p h = elim (Bool-cases (j == k)) [
    | inl s ↦ rw s (p, h.1)
    | inr n ↦ rw n (h.0, insert-Entries P k v d p h.1)
  ]

  pub remove-Entries {κ} :
      (P : String → V → Type κ) (k : String) (d : Dict V) → Entries P d → Entries P (remove k d)
  unfolding remove
  remove-Entries P k [] h = tt
  remove-Entries P k ((j, w) ∷ d) h = elim (Bool-cases (j == k)) [
    | inl s ↦ rw s (remove-Entries P k d h.1)
    | inr n ↦ rw n (h.0, remove-Entries P k d h.1)
  ]

  pub retain-Entries {κ} :
      (P Q : String → V → Type κ) (p : V → Bool) (d : Dict V)
      → ((k : String) (v : V) → p v ≡ true → P k v → Q k v)
      → Entries P d
      → Entries Q (retain p d)
  unfolding retain
  retain-Entries P Q p [] f h = tt
  retain-Entries P Q p ((j, w) ∷ d) f h = elim (Bool-cases (p w)) [
    | inl s ↦ rw s (f j w s h.0, retain-Entries P Q p d f h.1)
    | inr n ↦ rw n (retain-Entries P Q p d f h.1)
  ]

  pub map-Entries {κ} :
      (P Q : String → V → Type κ) (d : Dict V)
      → ((k : String) (v : V) → P k v → Q k v)
      → Entries P d
      → Entries Q d
  map-Entries P Q [] f h = tt
  map-Entries P Q ((k, v) ∷ d) f h = (f k v h.0, map-Entries P Q d f h.1)

-- `HashSet<String>`
unfoldable pub set_contains : String → List String → Bool
set_contains x [] = false
set_contains x (y ∷ ys) = y == x || set_contains x ys

-- Whether the item is new, and the set with it.
unfoldable pub set_insert : String → List String → Bool × List String
set_insert x ys = if set_contains x ys then (false, ys) else (true, x ∷ ys)

-- The set without the item.
unfoldable pub set_without : String → List String → List String
set_without x [] = []
set_without x (y ∷ ys) = let rest = set_without x ys in if y == x then rest else y ∷ rest

-- Whether the item was there, and the set without it.
unfoldable pub set_remove : String → List String → Bool × List String
set_remove x ys = (set_contains x ys, set_without x ys)

pub set_contains-insert :
    (x y : String) (ys : List String)
    → set_contains y (set_insert x ys).1 ≡ (if x == y then true else set_contains y ys)
unfolding set_insert
set_contains-insert x y ys = elim (Bool-cases (set_contains x ys)) [
  | inl h ↦ ground (arith, ==_iff x y)
  | inr h ↦ rw h (unfold set_contains in ground arith)
]

pub set_contains-without :
    (x y : String) (ys : List String)
    → set_contains y (set_without x ys) ≡ (if x == y then false else set_contains y ys)
unfolding set_contains set_without
set_contains-without x y [] = ground arith
set_contains-without x y (z ∷ ys) =
    ground (arith, ==_iff x y, ==_iff z x, ==_iff z y, set_contains-without x y ys)

module _ {ℓ} {V : Type ℓ} where
  pub get-retain :
      (p : V → Bool) (k : String) (v : V) (d : Dict V) → get k (retain p d) ≡ some v → p v ≡ true
  unfolding get retain
  get-retain p k v [] h = cc
  get-retain p k v ((j, w) ∷ d) h = elim (Bool-cases (p w)) [
    | inr n ↦ get-retain p k v d (rw n at h)
    | inl y ↦ elim (Bool-cases (j == k)) [
      | inl e ↦ rw (← some-injective w v (rw (y, e) at h)) y
      | inr e ↦ get-retain p k v d (rw (y, e) at h)
    ]
  ]

  pub any_value-retain :
      (p : V → Bool) (d : Dict V) → any_value p (retain (λ v. not (p v)) d) ≡ false
  unfolding any_value retain
  any_value-retain p [] = refl
  any_value-retain p ((k, v) ∷ d) = ground (arith, any_value-retain p d)

  pub any_value-insert :
      (p : V → Bool) (k : String) (v : V) (d : Dict V)
      → p v ≡ true
      → any_value p (insert k v d) ≡ true
  unfolding any_value insert
  any_value-insert p k v [] h = ground (arith, h)
  any_value-insert p k v ((j, w) ∷ d) h = ground (arith, h, any_value-insert p k v d h)
