-- ===== src/Broker/Commands/Validate.antt =====
-- crates/room-daemon/src/broker/commands/validate.rs.
use Prim.Native.Char.{code}
use room.Base.{
  ℕ, ◌+◌, ◌-◌, ◌^◌, String, ◌<>◌, Bool, true, false, ◌&&◌, Option, none, some, List, [], ◌∷◌,
  if◌then◌else◌, ltb, nat_eq, ◌==◌, any,
}
use room.Base.Text.{is_empty_text, join}
use room.Base.Text.Decimal.{scan_digits, to_decimal}
use room.Protocol.Schema.{
  ℤ, pos, negsuc, ParamType, text, username, choice, number, ParamSchema, CommandInfo, name_of,
  params_of,
}
use room.Registry.State.{Result, ok, err}

-- `<` of i64
unfoldable pub lt_int : ℤ → ℤ → Bool
lt_int (pos m) (pos n) = ltb m n
lt_int (pos m) (negsuc n) = false
lt_int (negsuc m) (pos n) = true
lt_int (negsuc m) (negsuc n) = ltb n m

unfoldable pub show_int : ℤ → String
unfolding to_decimal
show_int (pos n) = to_decimal n
show_int (negsuc n) = "-" <> to_decimal (n + 1)

abbrev negate : ℕ → ℤ
negate n = if nat_eq n 0 then pos 0 else negsuc (n - 1)

-- `s.parse::<i64>()`
unfoldable pub parse_int : String → Option ℤ
unfolding scan_digits
parse_int String.[] = none
parse_int (String.◌∷◌ c s) =
    if nat_eq (code c) b'-'
    then elim (scan_digits (2 ^ 63 + 1) s) [ none ↦ none | some n ↦ some (negate n) ]
    else if nat_eq (code c) b'+'
    then elim (scan_digits (2 ^ 63) s) [ none ↦ none | some n ↦ some (pos n) ]
    else elim (scan_digits (2 ^ 63) (String.◌∷◌ c s)) [ none ↦ none | some n ↦ some (pos n) ]

-- The refusals, `none` where the value passes.
unfoldable pub check_bounds : String → String → ℤ → Option ℤ → Option ℤ → Option String
unfolding lt_int show_int
check_bounds command param n min max =
    let low : Option String = elim min [
      | none ↦ none
      | some lo ↦
          if lt_int n lo
          then some ("/" <> (command <> (": <" <> (param <> ("> must be >= " <> show_int lo)))))
          else none
    ] in
    let high : Option String = elim max [
      | none ↦ none
      | some hi ↦
          if lt_int hi n
          then some ("/" <> (command <> (": <" <> (param <> ("> must be <= " <> show_int hi)))))
          else none
    ] in
    elim low [ some e ↦ some e | none ↦ high ]

unfoldable pub check_value : String → String → ParamType → String → Option String
unfolding parse_int check_bounds join
check_value command param text value = none
check_value command param username value = none
check_value command param (choice allowed) value =
    if any (λ a. a == value) allowed
    then none
    else some
        ("/" <> (command <> (": <" <> (param <> ("> must be one of: " <> join ", " allowed)))))
check_value command param (number min max) value = elim (parse_int value) [
  | none ↦
      some
        ("/" <> (command <> (": <" <> (param <> ("> must be a number, got '" <> (value <> "'"))))))
  | some n ↦ check_bounds command param n min max
]

unfoldable pub check_param : String → ParamSchema → String → Option String
unfolding check_value
check_param command ps value =
    if ps.required && is_empty_text value
    then some ("/" <> (command <> (": missing required parameter <" <> (ps.name <> ">"))))
    else if is_empty_text value
    then none
    else check_value command ps.name ps.param_type value

abbrev pub first_or_empty : List String → String
first_or_empty [] = ""
first_or_empty (p ∷ ps) = p

abbrev pub others : List String → List String
others [] = []
others (p ∷ ps) = ps

-- The loop over the schema: the parameters that are left stand against those of the schema.
unfoldable pub check_params : String → List ParamSchema → List String → Option String
unfolding check_param
check_params command [] params = none
check_params command (ps ∷ schema) params =
    let rest = check_params command schema (others params) in
    elim (check_param command ps (first_or_empty params)) [ some e ↦ some e | none ↦ rest ]

unfoldable pub validate_params : List String → CommandInfo → Result (Unit {0})
unfolding check_params
validate_params params schema = elim (check_params (name_of schema) (params_of schema) params) [
  | none ↦ ok tt
  | some e ↦ err e
]
