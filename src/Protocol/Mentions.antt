-- ===== src/Protocol/Mentions.antt =====
-- `parse_mentions` of crates/room-protocol/src/lib.rs. `alphanumeric` is `char::is_alphanumeric`, a table
-- of Unicode, on the number of the character.
use Prim.Native.Char.{code}
use room.Base.{
  ℕ, String, ◌≡◌, ◌≢◌, refl, Bool, true, false, not, ◌&&◌, ◌||◌, List, [], ◌∷◌, ◌++◌, arith,
  if◌then◌else◌, nat_eq, All, Distinct, Distinct-concat, All-append, Bool-cases, inl, inr, ==_iff,
}
use room.Base.Text.{is_empty_text}
use room.Base.Dict.{set_contains}

-- `u8::is_ascii_whitespace` of the byte in front. A byte of a longer character is none.
unfoldable pub is_ascii_whitespace : ℕ → Bool
is_ascii_whitespace c =
    nat_eq c b' ' || nat_eq c b'\t' || nat_eq c b'\n' || nat_eq c 0x0c || nat_eq c b'\r'

module _ (alphanumeric : ℕ → Bool) where
  unfoldable pub is_name_char : ℕ → Bool
  is_name_char c = alphanumeric c || nat_eq c b'-' || nat_eq c b'_'

  -- The name at the beginning of the text, up to the first other character.
  unfoldable pub take_name : String → String
  unfolding is_name_char
  take_name String.[] = ""
  take_name (String.◌∷◌ c s) =
      let rest = take_name s in if is_name_char (code c) then String.◌∷◌ c rest else ""

  -- `if !username.is_empty() && seen.insert(username) { mentions.push(username) }`
  unfoldable pub push_mention : String → List String → List String
  push_mention name mentions =
      if not (is_empty_text name) && not (set_contains name mentions)
      then mentions ++ (name ∷ [])
      else mentions

  -- The loop over the text; `at_start` is whether nothing or whitespace is in front.
  unfoldable pub mentions_from : List String → Bool → String → List String
  unfolding take_name push_mention is_ascii_whitespace
  mentions_from mentions at_start String.[] = mentions
  mentions_from mentions at_start (String.◌∷◌ c s) =
      mentions_from
        (if nat_eq (code c) b'@' && at_start then push_mention (take_name s) mentions else mentions)
        (is_ascii_whitespace (code c)) s

  unfoldable pub parse_mentions : String → List String
  unfolding mentions_from
  parse_mentions content = mentions_from [] true content

  -- Every character may stand in a name.
  abbrev pub all_name_chars : String → Bool
  all_name_chars String.[] = true
  all_name_chars (String.◌∷◌ c s) = is_name_char (code c) && all_name_chars s

  abbrev pub is_name : String → Bool
  is_name s = not (is_empty_text s) && all_name_chars s

  take_name-chars : (s : String) → all_name_chars (take_name s) ≡ true
  unfolding take_name
  take_name-chars String.[] = refl
  take_name-chars (String.◌∷◌ c s) = elim (Bool-cases (is_name_char (code c))) [
    | inl h ↦ ground (arith, h, take_name-chars s)
    | inr h ↦ rw h refl
  ]

  abbrev AreNames : List String → Type 0
  AreNames ms = All (λ m. is_name m ≡ true) ms × Distinct ms

  not_contained : (x : String) (xs : List String) → set_contains x xs ≡ false → All (λ y. y ≢ x) xs
  unfolding set_contains
  not_contained x [] h = tt
  not_contained x (y ∷ ys) h =
      (λ e. ground (arith, ==_iff y x, e), not_contained x ys (ground arith))

  push_mention-AreNames :
      (name : String) (ms : List String)
      → all_name_chars name ≡ true
      → AreNames ms
      → AreNames (push_mention name ms)
  unfolding push_mention
  push_mention-AreNames name ms n h = elim (Bool-cases (is_empty_text name)) [
    | inl e ↦ rw e h
    | inr e ↦ elim (Bool-cases (set_contains name ms)) [
      | inl f ↦ rw (e, f) h
      | inr f ↦
          rw (e, f)
            (
              All-append _ ms (name ∷ []) h.0 (ground (arith, e, n), tt),
              Distinct-concat name ms h.1 (not_contained name ms f),
            )
    ]
  ]

  mentions_from-AreNames :
      (s : String) (ms : List String) (at_start : Bool)
      → AreNames ms
      → AreNames (mentions_from ms at_start s)
  unfolding mentions_from
  mentions_from-AreNames String.[] ms at_start h = h
  mentions_from-AreNames (String.◌∷◌ c s) ms at_start h =
      mentions_from-AreNames s _ _ (elim (Bool-cases (nat_eq (code c) b'@' && at_start)) [
        | inl e ↦ rw e (push_mention-AreNames (take_name s) ms (take_name-chars s) h)
        | inr e ↦ rw e h
      ])

  -- The mentions of a text are names, none of them empty, and no name stands twice.
  pub parse_mentions_lem :
      (content : String)
      → All (λ m. is_name m ≡ true) (parse_mentions content) × Distinct (parse_mentions content)
  unfolding parse_mentions
  parse_mentions_lem content = mentions_from-AreNames content [] true (tt, tt)
