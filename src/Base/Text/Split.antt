-- ===== src/Base/Text/Split.antt =====
-- Rust's `split`, `split_once`, `strip_suffix`, `split_whitespace` and `replace` on texts.
use Prim.Native.Char.{Char, code}
use Prim.Native.String.{count}
use text.Mathlib.TextLemmas.{nil-append, cons-append, length-cons, length-append}
use room.Base.{
  ℕ, zero, suc, ◌-◌, String, ◌<>◌, ◌≡◌, refl, ap, Bool, true, false, not, ◌&&◌, Option, none, some,
  List, [], ◌∷◌, arith, if◌then◌else◌, nat_eq, ◌==◌, ==_iff, ==_refl, Bool-cases, inl, inr,
}
use room.Base.Text.{strip_prefix, strip_prefix-append, is_empty_text, join}
use room.Base.Text.Blank.{is_whitespace}

-- `s.split_once(p)`, with `p` first
unfoldable pub split_once : String → String → Option (String × String)
unfolding strip_prefix
split_once p String.[] = elim (strip_prefix p "") [ none ↦ none | some rest ↦ some ("", rest) ]
split_once p (String.◌∷◌ c s) = elim (strip_prefix p (String.◌∷◌ c s)) [
  | some rest ↦ some ("", rest)
  | none ↦ elim (split_once p s) [
    | none ↦ none
    | some (front, behind) ↦ some (String.◌∷◌ c front, behind)
  ]
]

-- `s.strip_suffix(p)`, with `p` first
unfoldable pub strip_suffix : String → String → Option String
strip_suffix p String.[] = if "" == p then some "" else none
strip_suffix p (String.◌∷◌ c s) =
    if String.◌∷◌ c s == p
    then some ""
    else elim (strip_suffix p s) [ none ↦ none | some front ↦ some (String.◌∷◌ c front) ]

-- The first part and the others of a text that is split at each `p`. After a separator has been found,
-- `skip` characters of it are left to pass over.
unfoldable pub split_parts : String → ℕ → String → String × List String
unfolding strip_prefix
split_parts p skip String.[] = ("", [])
split_parts p (suc skip) (String.◌∷◌ c s) = split_parts p skip s
split_parts p zero (String.◌∷◌ c s) =
    let found = split_parts p (count p - 1) s in
    let (part, parts) = split_parts p zero s in
    elim (strip_prefix p (String.◌∷◌ c s)) [
      | some _ ↦ ("", found.0 ∷ found.1)
      | none ↦ (String.◌∷◌ c part, parts)
    ]

-- `s.split(p)`, with `p` first and not empty
unfoldable pub split_on : String → String → List String
unfolding split_parts
split_on p s = let (part, parts) = split_parts p 0 s in part ∷ parts

-- `s.replace(p, t)`, with `p` not empty
unfoldable pub replace : String → String → String → String
unfolding split_on
replace p t s = join t (split_on p s)

-- `s.split_whitespace()`: the word that `s` begins with, and the words behind it.
unfoldable pub split_words : String → String × List String
unfolding is_whitespace
split_words String.[] = ("", [])
split_words (String.◌∷◌ c s) =
    let (word, words) = split_words s in
    if is_whitespace (code c)
    then ("", if is_empty_text word then words else word ∷ words)
    else (String.◌∷◌ c word, words)

unfoldable pub split_whitespace : String → List String
unfolding split_words
split_whitespace s =
    let (word, words) = split_words s in if is_empty_text word then words else word ∷ words

-- Whether a character does not occur.
abbrev pub lacks : ℕ → String → Bool
lacks k String.[] = true
lacks k (String.◌∷◌ c s) = not (nat_eq k (code c)) && lacks k s

pub split_once-append :
    (c : Char) (p front behind : String)
    → lacks (code c) front ≡ true
    → split_once (String.◌∷◌ c p) (front <> (String.◌∷◌ c p <> behind)) ≡ some (front, behind)
unfolding split_once strip_prefix
split_once-append c p String.[] behind h =
    rw (nil-append, cons-append) (ground (arith, strip_prefix-append p behind))
split_once-append c p (String.◌∷◌ d front) behind h =
    rw cons-append (ground (arith, h, split_once-append c p front behind))

longer : (c : Char) (s p : String) → (String.◌∷◌ c (s <> p) == p) ≡ false
longer c s p = elim (Bool-cases (String.◌∷◌ c (s <> p) == p)) [
  | inr n ↦ n
  | inl e ↦
      let same = ap count ((==_iff (String.◌∷◌ c (s <> p)) p).0 e) in
      absurd (omega (arith, same, length-cons c (s <> p), length-append s p))
]

pub strip_suffix-append : (s p : String) → strip_suffix p (s <> p) ≡ some s
unfolding strip_suffix
strip_suffix-append String.[] String.[] = rw (==_refl "") refl
strip_suffix-append String.[] (String.◌∷◌ c p) = rw (nil-append, ==_refl (String.◌∷◌ c p)) refl
strip_suffix-append (String.◌∷◌ c s) p =
    rw (cons-append, longer c s p, strip_suffix-append s p) refl
