-- ===== src/Tui/Text.antt =====
-- What crates/room-cli/src/tui uses of Rust's `String`: positions count the bytes of UTF-8, and `none` is
-- a panic, for a position that is no boundary of a character.
pub mod Positions
unfoldable pub use room.Base.Text.Bytes.{len_utf8, len}
use Prim.Native.Char.{Char, code}
use text.Mathlib.TextLemmas.{nil-append, append-nil, append_assoc, cons-append}
use room.Base.{
  ℕ, zero, suc, ◌+◌, ◌-◌, ◌≤◌, String, ◌<>◌, ◌≡◌, refl, sym, ap, ◌∙◌, Bool, true, false, Option,
  none, some, arith, ltb, leb, nat_eq, if◌then◌else◌, List, [], ◌∷◌, Bool-cases, inl, inr, is_some,
}

-- A step that may panic.
infixl 5 ◌>>=◌
abbrev pub ◌>>=◌ {ℓ κ} : {A : Type ℓ} {B : Type κ} → Option A → (A → Option B) → Option B
none >>= k = none
some a >>= k = k a

-- `s.split_at(pos)`, with `pos` first
unfoldable pub split_at : ℕ → String → Option (String × String)
unfolding len_utf8
split_at pos String.[] = if nat_eq pos 0 then some ("", "") else none
split_at pos (String.◌∷◌ c s) =
    let rest = split_at (pos - len_utf8 (code c)) s in
    if nat_eq pos 0
    then some ("", String.◌∷◌ c s)
    else if ltb pos (len_utf8 (code c))
    then none
    else elim rest [ none ↦ none | some (front, behind) ↦ some (String.◌∷◌ c front, behind) ]

-- `&s[start..stop]`
unfoldable pub slice : ℕ → ℕ → String → Option String
unfolding split_at
slice start stop s =
    if ltb stop start
    then none
    else (split_at start s >>= λ (front, rest).
        split_at (stop - start) rest >>= λ (mid, behind). some mid)

-- `s.insert_str(pos, t)`, and `s.insert(pos, c)` for a text of one character
unfoldable pub insert_str : ℕ → String → String → Option String
unfolding split_at
insert_str pos t s = split_at pos s >>= λ (front, behind). some (front <> (t <> behind))

-- `s.remove(pos)`
unfoldable pub remove : ℕ → String → Option String
unfolding split_at
remove pos s = split_at pos s >>= λ (front, behind). elim behind [
  | String.[] ↦ none
  | String.◌∷◌ c rest ↦ some (front <> rest)
]

-- `s.replace_range(start..stop, t)`; `s.drain(start..stop)` for the empty text
unfoldable pub replace_range : ℕ → ℕ → String → String → Option String
unfolding split_at
replace_range start stop t s =
    if ltb stop start
    then none
    else (split_at start s >>= λ (front, rest).
        split_at (stop - start) rest >>= λ (mid, behind). some (front <> (t <> behind)))

pub len_utf8_pos : (c : ℕ) → 1 ≤ len_utf8 c
unfolding len_utf8
len_utf8_pos c = ground arith

pub len_pos : (c : Char) (s : String) → 1 ≤ len (String.◌∷◌ c s)
unfolding len
len_pos c s = omega (arith, len_utf8_pos (code c))

pub len-append : (s t : String) → len (s <> t) ≡ len s + len t
unfolding len
len-append String.[] t = rw nil-append (omega arith)
len-append (String.◌∷◌ c s) t = rw cons-append (omega (arith, len-append s t))

pub split_at_zero : (s : String) → split_at 0 s ≡ some ("", s)
unfolding split_at
split_at_zero String.[] = refl
split_at_zero (String.◌∷◌ c s) = refl

pub split_at_lem :
    (front behind : String) → split_at (len front) (front <> behind) ≡ some (front, behind)
unfolding split_at len
split_at_lem String.[] String.[] = refl
split_at_lem String.[] (String.◌∷◌ c behind) = rw nil-append
split_at_lem (String.◌∷◌ c front) behind =
    let shorter : (len_utf8 (code c) + len front) - len_utf8 (code c) ≡ len front = omega arith in
    rw (cons-append, shorter, split_at_lem front behind) (ground (arith, len_utf8_pos (code c)))

module _ (front mid behind : String) where
  pub slice_lem : slice (len front) (len front + len mid) (front <> (mid <> behind)) ≡ some mid
  unfolding slice
  slice_lem =
      let shorter : (len front + len mid) - len front ≡ len mid = omega arith in
      rw (split_at_lem front (mid <> behind), shorter, split_at_lem mid behind) (ground arith)

  pub replace_range_lem :
      (t : String)
      → replace_range (len front) (len front + len mid) t (front <> (mid <> behind))
        ≡ some (front <> (t <> behind))
  unfolding replace_range
  replace_range_lem t =
      let shorter : (len front + len mid) - len front ≡ len mid = omega arith in
      rw (split_at_lem front (mid <> behind), shorter, split_at_lem mid behind) (ground arith)

pub slice_front : (front behind : String) → slice 0 (len front) (front <> behind) ≡ some front
unfolding slice split_at
slice_front front behind =
    let all : len front - 0 ≡ len front = omega arith in
    rw (all, split_at_zero (front <> behind)) (rw (split_at_lem front behind) (ground arith))

pub slice_behind :
    (front behind : String)
    → slice (len front) (len (front <> behind)) (front <> behind) ≡ some behind
unfolding slice
slice_behind front behind =
    rw (append-nil behind, ← len-append front behind) at (slice_lem front behind "")

pub insert_str_lem :
    (front behind t : String)
    → insert_str (len front) t (front <> behind) ≡ some (front <> (t <> behind))
unfolding insert_str
insert_str_lem front behind t = rw (split_at_lem front behind) refl

pub remove_lem :
    (front : String) (c : Char) (behind : String)
    → remove (len front) (front <> String.◌∷◌ c behind) ≡ some (front <> behind)
unfolding remove
remove_lem front c behind = rw (split_at_lem front (String.◌∷◌ c behind)) refl

-- A position between two characters, or at an end.
abbrev pub IsBoundary : ℕ → String → Type 0
IsBoundary pos s = (front behind : String) × (s ≡ front <> behind) × (pos ≡ len front)

-- Two such positions, the first not behind the second.
abbrev pub IsSpan : ℕ → ℕ → String → Type 0
IsSpan start stop s =
    (front mid behind : String) × (s ≡ front <> (mid <> behind))
    × (start ≡ len front)
    × (stop ≡ len front + len mid)

-- A position where a text splits is a boundary.
pub split_at-IsBoundary :
    (pos : ℕ) (s : String) → is_some (split_at pos s) ≡ true → IsBoundary pos s
unfolding split_at len
split_at-IsBoundary pos String.[] h = ("", "", refl, ground (arith, h))
split_at-IsBoundary pos (String.◌∷◌ c s) h = elim (Bool-cases (nat_eq pos 0)) [
  | inl z ↦ ("", String.◌∷◌ c s, sym (nil-append (String.◌∷◌ c s)), ground (arith, z))
  | inr p ↦
      let more : is_some (split_at (pos - len_utf8 (code c)) s) ≡ true = ground (arith, h, p) in
      let (front, behind, same, at_front) = split_at-IsBoundary (pos - len_utf8 (code c)) s more in
      let enough : len_utf8 (code c) ≤ pos = ground (arith, h, p) in
      (
        String.◌∷◌ c front,
        behind,
        ap (λ t. String.◌∷◌ c t) same ∙ sym (cons-append c front behind),
        omega (arith, at_front),
      )
]
