-- ===== src/Base/Tests.antt =====
-- Boolean tests, the conditional, and equality of texts.
use Prim.Native.Nat.{ℕ, compare, Ordering}
use Prim.Native.String.{String}
use mathlib.Core.Path.{◌≡◌, refl}
use mathlib.Core.Logic.{◌↔◌, ◌⊎◌, inl, inr}
use mathlib.Core.Bool.{Bool, true, false}
use mathlib.Core.Option.{Option, none, some}
use native.Mathlib.Omega.{arith}
use text.Mathlib.Text
use text.Mathlib.TextEquality.{eq_iff}

abbrev pub ltb : ℕ → ℕ → Bool
ltb a b = elim (compare a b) [ Ordering.lt ↦ true | _ ↦ false ]

abbrev pub leb : ℕ → ℕ → Bool
leb a b = elim (compare a b) [ Ordering.gt ↦ false | _ ↦ true ]

abbrev pub nat_eq : ℕ → ℕ → Bool
nat_eq a b = elim (compare a b) [ Ordering.eq ↦ true | _ ↦ false ]

infix 1 if◌then◌else◌
abbrev pub if◌then◌else◌ {ℓ} : {A : Type ℓ} → Bool → A → A → A
if true then x else y = x
if false then x else y = y

-- Rust's `==` on texts. It stays shut in proofs, which go by `==_iff`.
infix 50 ◌==◌
unfoldable pub ◌==◌ : String → String → Bool
s == t = Text.◌==◌ s t

pub ==_iff : (s t : String) → ((s == t) ≡ true) ↔ (s ≡ t)
unfolding ◌==◌
==_iff s t = eq_iff s t

pub ==_refl : (s : String) → (s == s) ≡ true
==_refl s = (==_iff s s).1 refl

-- `o.as_deref() == Some(s)`
abbrev pub is_some_of : Option String → String → Bool
is_some_of none s = false
is_some_of (some t) s = t == s

pub is_some_of→eq : (o : Option String) (s : String) → is_some_of o s ≡ true → o ≡ some s
is_some_of→eq none s h = cc
is_some_of→eq (some t) s h = ground (arith, ==_iff t s)

abbrev pub is_some {ℓ} : {A : Type ℓ} → Option A → Bool
is_some none = false
is_some (some a) = true

-- `o.unwrap_or(d)`
abbrev pub unwrap_or {ℓ} : {A : Type ℓ} → Option A → A → A
unwrap_or none d = d
unwrap_or (some a) d = a

-- To split on a computed value and keep the equation.
pub Bool-cases : (b : Bool) → (b ≡ true) ⊎ (b ≡ false)
Bool-cases true = inl refl
Bool-cases false = inr refl

pub Option-cases {ℓ} : {A : Type ℓ} (o : Option A) → (o ≡ none) ⊎ ((a : A) × (o ≡ some a))
Option-cases none = inl refl
Option-cases (some a) = inr (a, refl)
