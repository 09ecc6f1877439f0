-- ===== src/Broker/Commands/Accepted.antt =====
-- Which parameters crates/room-daemon/src/broker/commands/validate.rs accepts.
use mathlib.Core.Option.{none-ne-some, some-injective}
use mathlib.Core.Path.{subst}
use room.Base.{
  ℕ, zero, suc, String, ◌≡◌, ◌↔◌, refl, sym, ◌∙◌, true, false, Option, none, some, List, [], ◌∷◌,
  arith, any, get_elem?, ◌==◌, Bool-cases, Option-cases, inl, inr,
}
use room.Base.Text.{is_empty_text}
use room.Protocol.Schema.{
  ℤ, ParamType, text, username, choice, number, ParamSchema, CommandInfo, name_of, params_of,
}
use room.Registry.State.{ok}
use room.Broker.Commands.Validate.{
  lt_int, parse_int, check_bounds, check_value, check_param, check_params, first_or_empty, others,
  validate_params,
}

abbrev pub IsAtLeast : ℤ → Option ℤ → Type 0
IsAtLeast n none = Unit
IsAtLeast n (some lo) = lt_int n lo ≡ false

abbrev pub IsAtMost : ℤ → Option ℤ → Type 0
IsAtMost n none = Unit
IsAtMost n (some hi) = lt_int hi n ≡ false

-- What a value must be that is not empty.
abbrev pub Fits : ParamType → String → Type 0
Fits text value = Unit
Fits username value = Unit
Fits (choice allowed) value = any (λ a. a == value) allowed ≡ true
Fits (number min max) value =
    (n : ℤ) × (parse_int value ≡ some n) × IsAtLeast n min × IsAtMost n max

abbrev pub Accepts : ParamSchema → String → Type 0
Accepts ps value =
    (ps.required ≡ true → is_empty_text value ≡ false)
    × (is_empty_text value ≡ false → Fits ps.param_type value)

-- The parameter at a place, or the empty text behind the last one.
unfoldable pub value_at : List String → ℕ → String
value_at [] i = ""
value_at (p ∷ ps) zero = p
value_at (p ∷ ps) (suc i) = value_at ps i

check_bounds_iff :
    (command param : String) (n : ℤ) (min max : Option ℤ)
    → (check_bounds command param n min max ≡ none) ↔ (IsAtLeast n min × IsAtMost n max)
unfolding check_bounds
check_bounds_iff command param n none none = (λ h. (tt, tt), λ h. refl)
check_bounds_iff command param n none (some hi) =
    (λ h. (tt, ground (arith, h)), λ h. ground (arith, h.1))
check_bounds_iff command param n (some lo) none =
    (λ h. (ground (arith, h), tt), λ h. ground (arith, h.0))
check_bounds_iff command param n (some lo) (some hi) =
    (λ h. (ground (arith, h), ground (arith, h)), λ h. ground (arith, h.0, h.1))

check_value_iff :
    (command param : String) (t : ParamType) (value : String)
    → (check_value command param t value ≡ none) ↔ Fits t value
unfolding check_value
check_value_iff command param text value = (λ h. tt, λ h. refl)
check_value_iff command param username value = (λ h. tt, λ h. refl)
check_value_iff command param (choice allowed) value =
    (λ h. ground (arith, h), λ h. ground (arith, h))
check_value_iff command param (number min max) value = elim (Option-cases (parse_int value)) [
  | inl e ↦
      (λ h. absurd (ground (arith, h, e)), λ (n, f, lo, hi). absurd (none-ne-some n (sym e ∙ f)))
  | inr (n, e) ↦ (
    λ h.
        let (lo, hi) = (check_bounds_iff command param n min max).0 (ground (arith, h, e)) in
        (n, e, lo, hi),
    λ (m, f, lo, hi). ground (arith, f, (check_bounds_iff command param m min max).1 (lo, hi)),
  )
]

check_param_iff :
    (command : String) (ps : ParamSchema) (value : String)
    → (check_param command ps value ≡ none) ↔ Accepts ps value
unfolding check_param
check_param_iff command ps value =
    let fits = check_value_iff command ps.name ps.param_type value in
    elim (Bool-cases (is_empty_text value)) [
      | inl e ↦ (
        λ h. (λ r. absurd (ground (arith, h, e, r)), λ n. absurd (ground (arith, e, n))),
        λ a. elim (Bool-cases ps.required) [
          | inl r ↦ absurd (ground (arith, e, a.0 r))
          | inr o ↦ ground (arith, e, o)
        ],
      )
      | inr e ↦ (
        λ h. (λ r. e, λ n. fits.0 (ground (arith, h, e))),
        λ a. let h = fits.1 (a.1 e) in ground (arith, h, e),
      )
    ]

value_at-others :
    (params : List String) (i : ℕ) → value_at (others params) i ≡ value_at params (suc i)
unfolding value_at
value_at-others [] i = refl
value_at-others (p ∷ ps) i = refl

value_at-zero : (params : List String) → value_at params zero ≡ first_or_empty params
unfolding value_at
value_at-zero [] = refl
value_at-zero (p ∷ ps) = refl

-- Each parameter of the schema accepts the value at its place.
abbrev pub AcceptsAll : List ParamSchema → List String → Type 0
AcceptsAll schema params =
    (i : ℕ) (ps : ParamSchema) → get_elem? schema i ≡ some ps → Accepts ps (value_at params i)

later :
    (s : ParamSchema) (schema : List ParamSchema) (params : List String)
    → Accepts s (first_or_empty params)
    → AcceptsAll schema (others params)
    → AcceptsAll (s ∷ schema) params
later s schema params first rest zero ps e =
    let same = some-injective s ps e in
    subst (λ p. Accepts p (value_at params zero)) same (rw (value_at-zero params) first)
later s schema params first rest (suc i) ps e = rw (← value_at-others params i) (rest i ps e)

check_params_iff :
    (command : String) (schema : List ParamSchema) (params : List String)
    → (check_params command schema params ≡ none) ↔ AcceptsAll schema params
unfolding check_params
check_params_iff command [] params = (λ h i ps e. absurd (none-ne-some ps e), λ a. refl)
check_params_iff command (s ∷ schema) params =
    let first = check_param_iff command s (first_or_empty params) in
    let rest = check_params_iff command schema (others params) in
    (
      λ h. later s schema params (first.0 (ground (arith, h))) (rest.0 (ground (arith, h))),
      λ a.
          let h = first.1 (rw (value_at-zero params) at (a zero s refl)) in
          let k = rest.1 (λ i ps e. rw (value_at-others params i) (a (suc i) ps e)) in
          ground (arith, h, k),
    )

-- The parameters are accepted exactly if each parameter of the command's schema that is required has a
-- value, and each value that is there is one of its choices, or a number within its bounds, as its type
-- asks.
pub validate_params_iff :
    (params : List String) (schema : CommandInfo)
    → (validate_params params schema ≡ ok tt) ↔ AcceptsAll (params_of schema) params
unfolding validate_params
validate_params_iff params schema =
    let checked = check_params_iff (name_of schema) (params_of schema) params in
    (λ h. checked.0 (ground (arith, h)), λ a. let e = checked.1 a in ground (arith, e))
