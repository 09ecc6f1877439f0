-- ===== src/Daemon/RoomId.antt =====
-- `validate_room_id` of crates/room-daemon/src/broker/daemon/config.rs.
use Prim.Native.Char.{code}
use room.Base.{
  ℕ, ◌≤◌, String, ◌≡◌, ◌≢◌, ◌↔◌, refl, Bool, true, false, ◌||◌, List, [], ◌∷◌, arith, if◌then◌else◌,
  ltb, nat_eq, any, ◌==◌, ==_iff,
}
use room.Base.Text.{contains, is_empty_text, strip_prefix}
use room.Base.Text.Blank.{is_whitespace}
use room.Base.Text.Bytes.{len}
use room.Registry.State.{Result, ok, err}

abbrev pub unsafe_chars : List ℕ
unsafe_chars = b'/' ∷ 92 ∷ b':' ∷ b'*' ∷ b'?' ∷ 34 ∷ b'<' ∷ b'>' ∷ b'|' ∷ 0 ∷ []

abbrev pub max_room_id_len : ℕ
max_room_id_len = 64

-- `s.chars().any(p)`
unfoldable pub any_char : (ℕ → Bool) → String → Bool
any_char p String.[] = false
any_char p (String.◌∷◌ c s) = p (code c) || any_char p s

unfoldable pub is_unsafe : ℕ → Bool
is_unsafe c = any (λ bad. nat_eq bad c) unsafe_chars

-- The texts of the errors are shortened.
unfoldable pub validate_room_id : String → Result (Unit {0})
unfolding is_empty_text len contains any_char is_whitespace is_unsafe
validate_room_id room_id =
    if is_empty_text room_id
    then err "room ID cannot be empty"
    else if ltb max_room_id_len (len room_id)
    then err "room ID too long"
    else if room_id == "." || room_id == ".." || contains ".." room_id
    then err "room ID cannot contain '..'"
    else if any_char is_whitespace room_id
    then err "room ID cannot contain whitespace"
    else if any_char is_unsafe room_id
    then err "room ID contains unsafe character"
    else ok tt

-- Every character of the text satisfies `P`.
abbrev pub EveryChar : (ℕ → Type 0) → String → Type 0
EveryChar P String.[] = Unit
EveryChar P (String.◌∷◌ c s) = P (code c) × EveryChar P s

-- No whitespace, no separator of a path, no character that a shell or a file system treats in its own
-- way, and not the character with the code 0.
pub record IsPlain (c : ℕ) : Type 0 where
  pub no_blank : is_whitespace c ≡ false
  pub no_slash : c ≢ 47
  pub no_backslash : c ≢ 92
  pub no_colon : c ≢ 58
  pub no_star : c ≢ 42
  pub no_question : c ≢ 63
  pub no_quote : c ≢ 34
  pub no_angle : (c ≢ 60) × (c ≢ 62)
  pub no_bar : c ≢ 124
  pub no_null : c ≢ 0

IsPlain-iff : (c : ℕ) → ((is_whitespace c || is_unsafe c) ≡ false) ↔ IsPlain c
unfolding is_unsafe
IsPlain-iff c = (
  λ h. record {
    no_blank = ground (arith, h);
    no_slash = λ e. ground (arith, h, e);
    no_backslash = λ e. ground (arith, h, e);
    no_colon = λ e. ground (arith, h, e);
    no_star = λ e. ground (arith, h, e);
    no_question = λ e. ground (arith, h, e);
    no_quote = λ e. ground (arith, h, e);
    no_angle = (λ e. ground (arith, h, e), λ e. ground (arith, h, e));
    no_bar = λ e. ground (arith, h, e);
    no_null = λ e. ground (arith, h, e);
  },
  λ p.
      let l = p.no_angle.0 in
      let r = p.no_angle.1 in
      ground (
        arith, p.no_blank, p.no_slash, p.no_backslash, p.no_colon, p.no_star, p.no_question,
        p.no_quote, l, r, p.no_bar, p.no_null,
      ),
)

EveryChar-iff :
    (s : String)
    → ((any_char is_whitespace s || any_char is_unsafe s) ≡ false) ↔ EveryChar IsPlain s
unfolding any_char
EveryChar-iff String.[] = (λ h. tt, λ h. refl)
EveryChar-iff (String.◌∷◌ c s) =
    let rest = EveryChar-iff s in
    let here = IsPlain-iff (code c) in
    (
      λ h. (here.0 (ground (arith, h)), rest.0 (ground (arith, h))),
      λ h. let more = rest.1 h.1 in let plain = here.1 h.0 in ground (arith, plain, more),
    )

dots : (s : String) → (s == "..") ≡ true → contains ".." s ≡ true
unfolding contains strip_prefix
dots s e = rw ((==_iff s "..").0 e) refl

-- The room ids that are accepted are those that are not empty, have at most 64 bytes, are not the single
-- dot and have no two dots behind one another, and of which every character is plain: no whitespace and
-- none of / \ : * ? " < > | and the null character.
pub validate_room_id_iff :
    (room_id : String)
    → (validate_room_id room_id ≡ ok tt) ↔ (
        (is_empty_text room_id ≡ false)
        × (len room_id ≤ 64)
        × (room_id == "." ≡ false)
        × (contains ".." room_id ≡ false)
        × EveryChar IsPlain room_id)
unfolding validate_room_id
validate_room_id_iff room_id =
    let plain = EveryChar-iff room_id in
    let above = dots room_id in
    (
      λ h. (
        ground (arith, h),
        ground (arith, h),
        ground (arith, h),
        ground (arith, h),
        plain.0 (ground (arith, h)),
      ),
      λ (named, short, dot, up, every).
          let p = plain.1 every in ground (arith, named, short, dot, up, above, p),
    )
