-- ===== src/Base/Text/Lines.antt =====
-- Files of one value a line: `str::lines`, and a buffer to which lines are pushed with `\n` behind
-- each. `serde_json` is a pair of functions; what is relied on is `IsCodec`.
use Prim.Native.Char.{code}
use text.Mathlib.TextLemmas.{nil-append, append-nil, append_assoc, cons-append}
use room.Base.{
  String, ◌<>◌, ◌≡◌, refl, ap, ◌∙◌, Bool, true, false, not, ◌&&◌, arith, List, [], ◌∷◌, ◌++◌, All,
  nat_eq, if◌then◌else◌,
}

cons_head : String → List String → List String
cons_head c [] = c ∷ []
cons_head c (l ∷ ls) = (c <> l) ∷ ls

at_newline : String → Bool
at_newline String.[] = false
at_newline (String.◌∷◌ c s) = nat_eq (code c) b'\n'

-- `s.lines()`: `\n` and `\r\n` end a line, and a last line may lack its end.
unfoldable pub lines : String → List String
unfolding cons_head at_newline
lines String.[] = []
lines (String.◌∷◌ c s) =
    let rest = lines s in
    if nat_eq (code c) b'\n'
    then "" ∷ rest
    else if nat_eq (code c) b'\r' && at_newline s
    then rest
    else cons_head (String.◌∷◌ c "") rest

-- for each line: `buf.push_str(&line); buf.push('\n')`
unfoldable pub concat_lines : List String → String
concat_lines [] = ""
concat_lines (l ∷ ls) = l <> ("\n" <> concat_lines ls)

-- No character of the text ends a line.
unfoldable pub is_line : String → Bool
is_line String.[] = true
is_line (String.◌∷◌ c s) = not (nat_eq (code c) b'\n') && not (nat_eq (code c) b'\r') && is_line s

lines-append : (l s : String) → is_line l ≡ true → lines (l <> ("\n" <> s)) ≡ l ∷ lines s
unfolding lines is_line
lines-append String.[] s h = rw (nil-append, cons-append, nil-append)
lines-append (String.◌∷◌ c l) s h =
    rw (cons-append c l) (ground (arith, lines-append l s, cons-append c "" l, nil-append l))

pub lines-concat_lines :
    (ls : List String) → All (λ l. is_line l ≡ true) ls → lines (concat_lines ls) ≡ ls
unfolding concat_lines
lines-concat_lines [] h = unfold lines in refl
lines-concat_lines (l ∷ ls) h = lines-append l _ h.0 ∙ ap (◌∷◌ l) (lines-concat_lines ls h.1)

pub concat_lines-snoc :
    (ls : List String) (l : String) → concat_lines (ls ++ (l ∷ [])) ≡ concat_lines ls <> (l <> "\n")
unfolding concat_lines
concat_lines-snoc [] l = rw (nil-append, append-nil) refl
concat_lines-snoc (k ∷ ks) l = rw (concat_lines-snoc ks l, append_assoc, append_assoc) refl
