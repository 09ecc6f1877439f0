-- ===== src/Tui/Text/Positions.antt =====
-- The boundaries of a text, and what the operations on a text do to them.
use Prim.Native.Char.{code}
use text.Mathlib.TextLemmas.{append-nil, append_assoc, cons-append}
use room.Base.{
  ℕ, ◌+◌, ◌-◌, ◌≤◌, ◌<◌, String, ◌<>◌, ◌≡◌, refl, ap, ◌∙◌, true, Option, none, some, arith, is_some,
}
use room.Tui.Text.{
  ◌>>=◌, len_utf8, len, len-append, split_at, split_at_lem, split_at_zero, split_at-IsBoundary,
  slice, slice_lem, insert_str, insert_str_lem, remove, remove_lem, replace_range,
  replace_range_lem, IsSpan,
}

-- A step that does not panic, and what holds of its result.
abbrev pub Safe : {A : Type 0} → Option A → (A → Type 0) → Type 0
Safe none P = ⊥
Safe (some a) P = P a

pub Safe-bind :
    {A B : Type 0} (m : Option A) (k : A → Option B) (Q : A → Type 0) (P : B → Type 0)
    → Safe m Q
    → ((a : A) → Q a → Safe (k a) P)
    → Safe (m >>= k) P
Safe-bind none k Q P h next = h
Safe-bind (some a) k Q P h next = next a h

abbrev pub IsAt : ℕ → String → Type 0
IsAt pos s = is_some (split_at pos s) ≡ true

pub IsAt-zero : (s : String) → IsAt 0 s
IsAt-zero s = rw (split_at_zero s) refl

pub IsAt-len : (front behind : String) → IsAt (len front) (front <> behind)
IsAt-len front behind = rw (split_at_lem front behind) refl

pub IsAt-end : (s : String) → IsAt (len s) s
IsAt-end s = rw append-nil at (IsAt-len s "")

pub IsAt-append : (pos : ℕ) (front behind : String) → IsAt pos front → IsAt pos (front <> behind)
IsAt-append pos front behind h =
    let (f, b, same, at_f) = split_at-IsBoundary pos front h in
    rw (same, at_f, append_assoc) (IsAt-len f (b <> behind))

pub IsAt-front :
    (pos : ℕ) (front behind : String)
    → pos ≤ len front
    → IsAt pos (front <> behind)
    → IsAt pos front
unfolding split_at len
IsAt-front pos String.[] behind le h = ground arith
IsAt-front pos (String.◌∷◌ c front) behind le h =
    let h' = rw cons-append at h in
    let rest = IsAt-front (pos - len_utf8 (code c)) front behind in ground (arith, h', rest)

pub IsAt-le : (pos : ℕ) (s : String) → IsAt pos s → pos ≤ len s
IsAt-le pos s h =
    let (f, b, same, at_f) = split_at-IsBoundary pos s h in
    omega (arith, ap len same, len-append f b, at_f)

-- Two boundaries cut a text into three.
pub span :
    (start stop : ℕ) (s : String) → start ≤ stop → IsAt start s → IsAt stop s → IsSpan start stop s
span start stop s le h k =
    let (f, b, same, at_f) = split_at-IsBoundary stop s k in
    let h' : IsAt start (f <> b) = rw same at h in
    let (g, m, same', at_g) =
      split_at-IsBoundary start f (IsAt-front start f b (omega (arith, at_f)) h') in
    (
      g,
      m,
      b,
      same ∙ ap (λ t. t <> b) same' ∙ append_assoc g m b,
      at_g,
      at_f ∙ ap len same' ∙ len-append g m,
    )

-- What an edit behind `pos` leaves alone.
abbrev pub Keeps : ℕ → String → String → Type 0
Keeps pos s s' = (p : ℕ) → p ≤ pos → IsAt p s → IsAt p s'

Keeps_lem : (front behind behind' : String) → Keeps (len front) (front <> behind) (front <> behind')
Keeps_lem front behind behind' p le h = IsAt-append p front behind' (IsAt-front p front behind le h)

pub slice-Safe :
    (start stop : ℕ) (s : String)
    → start ≤ stop
    → IsAt start s
    → IsAt stop s
    → Safe (slice start stop s) (λ mid. Unit {0})
slice-Safe start stop s le h k =
    let (f, m, b, same, at_f, at_m) = span start stop s le h k in
    rw (same, at_f, at_m, slice_lem f m b) tt

pub insert_str-Safe :
    (pos : ℕ) (t s : String)
    → IsAt pos s
    → Safe (insert_str pos t s) (λ s'. IsAt (pos + len t) s' × Keeps pos s s')
insert_str-Safe pos t s h =
    let (f, b, same, at_f) = split_at-IsBoundary pos s h in
    let at_end : IsAt (len f + len t) (f <> (t <> b)) =
      rw (append_assoc, len-append) at (IsAt-len (f <> t) b) in
    rw (same, at_f, insert_str_lem f b t) (at_end, Keeps_lem f b (t <> b))

pub replace_range-Safe :
    (start stop : ℕ) (t s : String)
    → start ≤ stop
    → IsAt start s
    → IsAt stop s
    → Safe (replace_range start stop t s) (λ s'. IsAt (start + len t) s' × Keeps start s s')
replace_range-Safe start stop t s le h k =
    let (f, m, b, same, at_f, at_m) = span start stop s le h k in
    let at_end : IsAt (len f + len t) (f <> (t <> b)) =
      rw (append_assoc, len-append) at (IsAt-len (f <> t) b) in
    rw (same, at_f, at_m, replace_range_lem f m b t) (at_end, Keeps_lem f (m <> b) (t <> b))

remove-here :
    (front behind : String)
    → len front < len (front <> behind)
    → Safe
        (remove (len front) (front <> behind))
        (λ s'. IsAt (len front) s' × Keeps (len front) (front <> behind) s')
unfolding len
remove-here front String.[] lt =
    let same : len (front <> "") ≡ len front = ap len (append-nil front) in absurd (omega arith)
remove-here front (String.◌∷◌ c behind) lt =
    rw (remove_lem front c behind)
      (IsAt-len front behind, Keeps_lem front (String.◌∷◌ c behind) behind)

-- A boundary with a character behind it.
pub remove-Safe :
    (pos : ℕ) (s : String)
    → IsAt pos s
    → pos < len s
    → Safe (remove pos s) (λ s'. IsAt pos s' × Keeps pos s s')
remove-Safe pos s h lt =
    let (f, b, same, at_f) = split_at-IsBoundary pos s h in
    rw (same, at_f) (remove-here f b (rw (same, at_f) at lt))
