-- ===== src/Base/Text/Decimal.antt =====
-- Decimal numbers as `format!("{n}")` writes them and `str::parse` of an unsigned type reads them.
use Prim.Native.Char.{Char, code}
use Prim.Native.String.{count}
use room.Base.{
  ℕ, zero, suc, ◌+◌, ◌-◌, ◌*◌, ◌/◌, ◌%◌, ◌<◌, String, ◌≡◌, refl, Bool, true, false, ◌&&◌, Option,
  none, some, arith, nat_eq, leb, ltb, if◌then◌else◌, Bool-cases, ◌∙◌, ap, inl, inr,
}

unfoldable pub digit : ℕ → Char
digit zero = "0"
digit (suc zero) = "1"
digit (suc (suc zero)) = "2"
digit (suc (suc (suc zero))) = "3"
digit (suc (suc (suc (suc zero)))) = "4"
digit (suc (suc (suc (suc (suc zero))))) = "5"
digit (suc (suc (suc (suc (suc (suc zero)))))) = "6"
digit (suc (suc (suc (suc (suc (suc (suc zero))))))) = "7"
digit (suc (suc (suc (suc (suc (suc (suc (suc zero)))))))) = "8"
digit (suc (suc (suc (suc (suc (suc (suc (suc (suc zero))))))))) = "9"
digit _ = "0"

code-digit : (d : ℕ) → d < 10 → code (digit d) ≡ b'0' + d
unfolding digit
code-digit zero h = refl
code-digit (suc zero) h = refl
code-digit (suc (suc zero)) h = refl
code-digit (suc (suc (suc zero))) h = refl
code-digit (suc (suc (suc (suc zero)))) h = refl
code-digit (suc (suc (suc (suc (suc zero))))) h = refl
code-digit (suc (suc (suc (suc (suc (suc zero)))))) h = refl
code-digit (suc (suc (suc (suc (suc (suc (suc zero))))))) h = refl
code-digit (suc (suc (suc (suc (suc (suc (suc (suc zero)))))))) h = refl
code-digit (suc (suc (suc (suc (suc (suc (suc (suc (suc zero))))))))) h = refl
code-digit (suc (suc (suc (suc (suc (suc (suc (suc (suc (suc d)))))))))) h = absurd (omega arith)

-- The digits of `n` in front of `out`; the fuel bounds their number.
unfoldable pub digits : ℕ → ℕ → String → String
unfolding digit
digits zero n out = out
digits (suc fuel) n out =
    let shown = String.◌∷◌ (digit (n % 10)) out in
    let rest = digits fuel (n / 10) shown in if nat_eq (n / 10) 0 then shown else rest

-- `n.to_string()`
unfoldable pub to_decimal : ℕ → String
unfolding digits
to_decimal n = digits (suc n) n ""

-- `format!("{:0width$}", n)`
unfoldable pub zeros : ℕ → String → String
zeros zero s = s
zeros (suc k) s = String.◌∷◌ "0" (zeros k s)

unfoldable pub to_decimal_padded : ℕ → ℕ → String
unfolding to_decimal zeros
to_decimal_padded width n = zeros (width - count (to_decimal n)) (to_decimal n)

-- The digits behind `n`; a value that reaches `bound` is an overflow.
unfoldable pub scan : ℕ → String → ℕ → Option ℕ
scan bound String.[] n = some n
scan bound (String.◌∷◌ c s) n =
    let rest = scan bound s (n * 10 + (code c - b'0')) in
    if leb b'0' (code c) && leb (code c) b'9'
    then (if ltb (n * 10 + (code c - b'0')) bound then rest else none)
    else none

unfoldable pub scan_digits : ℕ → String → Option ℕ
unfolding scan
scan_digits bound String.[] = none
scan_digits bound (String.◌∷◌ c s) = scan bound (String.◌∷◌ c s) 0

-- `s.parse::<uN>()` with `bound` 2^N: one `+` may stand in front.
unfoldable pub parse_uint : ℕ → String → Option ℕ
unfolding scan_digits
parse_uint bound String.[] = none
parse_uint bound (String.◌∷◌ c s) =
    if nat_eq (code c) b'+' then scan_digits bound s else scan_digits bound (String.◌∷◌ c s)

scan-digit :
    (bound d n : ℕ) (s : String)
    → d < 10
    → n * 10 + d < bound
    → scan bound (String.◌∷◌ (digit d) s) n ≡ scan bound s (n * 10 + d)
unfolding scan
scan-digit bound d n s h fits = ground (arith, code-digit d h)

scan-digits :
    (fuel bound n : ℕ) (out : String)
    → n < fuel
    → n < bound
    → scan bound (digits fuel n out) 0 ≡ scan bound out n
unfolding digits
scan-digits zero bound n out h fits = elim h [ ]
scan-digits (suc fuel) bound n out h fits = elim (Bool-cases (nat_eq (n / 10) 0)) [
  | inl e ↦ rw e (
      scan-digit bound (n % 10) 0 out (omega arith) (omega arith)
      ∙ ap (scan bound out) (ground arith))
  | inr e ↦ rw e (
      scan-digits fuel bound (n / 10) _ (ground arith) (omega arith)
      ∙ scan-digit bound (n % 10) (n / 10) out (omega arith) (omega arith)
      ∙ ap (scan bound out) (omega arith))
]

starts_with_digit : String → Bool
starts_with_digit String.[] = false
starts_with_digit (String.◌∷◌ c s) = leb b'0' (code c) && leb (code c) b'9'

starts_with_digit-digit :
    (d : ℕ) (s : String) → d < 10 → starts_with_digit (String.◌∷◌ (digit d) s) ≡ true
unfolding starts_with_digit
starts_with_digit-digit d s h = ground (arith, code-digit d h)

starts_with_digit-digits :
    (fuel n : ℕ) (out : String) → starts_with_digit (digits (suc fuel) n out) ≡ true
unfolding digits
starts_with_digit-digits zero n out = elim (Bool-cases (nat_eq (n / 10) 0)) [
  | inl e ↦ rw e (starts_with_digit-digit (n % 10) out (omega arith))
  | inr e ↦ rw e (starts_with_digit-digit (n % 10) out (omega arith))
]
starts_with_digit-digits (suc fuel) n out = elim (Bool-cases (nat_eq (n / 10) 0)) [
  | inl e ↦ rw e (starts_with_digit-digit (n % 10) out (omega arith))
  | inr e ↦ rw e (starts_with_digit-digits fuel (n / 10) _)
]

starts_with_digit-zeros :
    (k : ℕ) (s : String) → starts_with_digit s ≡ true → starts_with_digit (zeros k s) ≡ true
unfolding zeros starts_with_digit
starts_with_digit-zeros zero s h = h
starts_with_digit-zeros (suc k) s h = refl

parse_uint-scan :
    (bound : ℕ) (s : String) → starts_with_digit s ≡ true → parse_uint bound s ≡ scan bound s 0
unfolding parse_uint starts_with_digit
parse_uint-scan bound String.[] h = cc
parse_uint-scan bound (String.◌∷◌ c s) h = ground arith

scan-zeros : (k bound : ℕ) (s : String) → 0 < bound → scan bound (zeros k s) 0 ≡ scan bound s 0
unfolding zeros digit
scan-zeros zero bound s h = refl
scan-zeros (suc k) bound s h =
    scan-digit bound 0 0 (zeros k s) (omega arith) h ∙ scan-zeros k bound s h

-- Reading back a printed number, with leading zeros or without, gives the number.
pub parse_uint-to_decimal_padded :
    (bound width n : ℕ) → n < bound → parse_uint bound (to_decimal_padded width n) ≡ some n
unfolding to_decimal_padded to_decimal scan
parse_uint-to_decimal_padded bound width n h =
    parse_uint-scan bound _ (
      starts_with_digit-zeros (width - count (digits (suc n) n "")) _
        (starts_with_digit-digits n n ""))
    ∙ scan-zeros (width - count (digits (suc n) n "")) bound _ (omega arith)
    ∙ scan-digits (suc n) bound n "" (omega arith) h

pub parse_uint-to_decimal : (bound n : ℕ) → n < bound → parse_uint bound (to_decimal n) ≡ some n
unfolding to_decimal scan
parse_uint-to_decimal bound n h =
    parse_uint-scan bound _ (starts_with_digit-digits n n "")
    ∙ scan-digits (suc n) bound n "" (omega arith) h

abbrev pub all_digits : String → Bool
all_digits String.[] = true
all_digits (String.◌∷◌ c s) = leb b'0' (code c) && leb (code c) b'9' && all_digits s

shown_digits :
    (d : ℕ) (s : String) → d < 10 → all_digits s ≡ true → all_digits (String.◌∷◌ (digit d) s) ≡ true
shown_digits d s h k = ground (arith, code-digit d h)

all_digits-digits :
    (fuel n : ℕ) (out : String) → all_digits out ≡ true → all_digits (digits fuel n out) ≡ true
unfolding digits
all_digits-digits zero n out h = h
all_digits-digits (suc fuel) n out h = elim (Bool-cases (nat_eq (n / 10) 0)) [
  | inl e ↦ rw e (shown_digits (n % 10) out (omega arith) h)
  | inr e ↦ rw e (all_digits-digits fuel (n / 10) _ (shown_digits (n % 10) out (omega arith) h))
]

pub to_decimal-all_digits : (n : ℕ) → all_digits (to_decimal n) ≡ true
unfolding to_decimal
to_decimal-all_digits n = all_digits-digits (suc n) n "" refl
