-- ===== src/Base/Text/Codec.antt =====
-- What `serde_json` does for one type: a value to one line of text and back. Files of such lines.
use room.Base.{
  ◌++◌, Option-cases, inl, inr, All-append, keep-snoc, String, ◌≡◌, refl, ap, true, false, not,
  Option, none, some, List, [], ◌∷◌, All, keep,
}
use room.Base.Text.Blank.{is_blank, trim}
use room.Base.Text.Lines.{lines, concat_lines, is_line, lines-concat_lines}

pub record Codec {ℓ} (A : Type ℓ) : Type ℓ where
  pub encode : A → Option String  -- `to_string`
  pub decode : String → Option A  -- `from_str`

-- `from_str(line.trim())`
unfoldable pub trimming {ℓ} : {A : Type ℓ} → Codec A → Codec A
trimming c = record { encode = c.encode; decode = λ s. c.decode (trim s) }

-- The value has a text, on one line and not blank, and the text is read back as the value.
abbrev pub IsEncoded {ℓ} : {A : Type ℓ} → Codec A → A → Type ℓ
IsEncoded c a =
    (s : String) × (c.encode a ≡ some s)
    × (c.decode s ≡ some a)
    × (is_line s ≡ true)
    × (is_blank s ≡ false)

module _ {ℓ} {A : Type ℓ} where
  -- The loop of a full rewrite; an error of `to_string` ends it.
  unfoldable pub encode_all : Codec A → List A → Option (List String)
  encode_all c [] = some []
  encode_all c (a ∷ as') = elim (c.encode a) [
    | none ↦ none
    | some s ↦ elim (encode_all c as') [ none ↦ none | some ss ↦ some (s ∷ ss) ]
  ]

  -- `filter_map(|l| from_str(l).ok())`
  unfoldable pub decode_all : Codec A → List String → List A
  decode_all c [] = []
  decode_all c (s ∷ ss) =
      let rest = decode_all c ss in elim (c.decode s) [ none ↦ rest | some a ↦ a ∷ rest ]

  -- The values of a file, blank and corrupt lines left out.
  unfoldable pub load_lines : Codec A → String → List A
  unfolding decode_all
  load_lines c contents = decode_all c (keep (λ l. not (is_blank l)) (lines contents))

  -- The lines `ss` are written for `as'`, and are read back as `as'`.
  record IsTextOf (c : Codec A) (as' : List A) (ss : List String) : Type ℓ where
    encodes : encode_all c as' ≡ some ss
    decodes : decode_all c (keep (λ l. not (is_blank l)) ss) ≡ as'
    on_lines : All (λ l. is_line l ≡ true) ss

  texts_of :
      (c : Codec A) (as' : List A) → All (IsEncoded c) as' → (ss : List String) × IsTextOf c as' ss
  unfolding encode_all decode_all
  texts_of c [] ok = ([], record { encodes = refl; decodes = refl; on_lines = tt })
  texts_of c (a ∷ as') ok =
      let (s, e, d, l, b) = ok.0 in
      let (ss, t) = texts_of c as' ok.1 in
      (
        s ∷ ss,
        record {
          encodes = rw (encode_all, e, t.encodes);
          decodes = rw (b, decode_all, d) (ap (◌∷◌ a) t.decodes);
          on_lines = (l, t.on_lines);
        },
      )

  -- A file that is written line by line is read back as the values written.
  pub load_lines-concat_lines :
      (c : Codec A) (as' : List A)
      → All (IsEncoded c) as'
      → (ss : List String) × (encode_all c as' ≡ some ss) × (load_lines c (concat_lines ss) ≡ as')
  load_lines-concat_lines c as' ok =
      let (ss, t) = texts_of c as' ok in
      (ss, t.encodes, unfold load_lines in rw (lines-concat_lines ss t.on_lines) t.decodes)

  decode_all-snoc :
      (c : Codec A) (ss : List String) (s : String) (a : A)
      → c.decode s ≡ some a
      → decode_all c (ss ++ (s ∷ [])) ≡ decode_all c ss ++ (a ∷ [])
  unfolding decode_all
  decode_all-snoc c [] s a e = rw e refl
  decode_all-snoc c (t ∷ ss) s a e = elim (Option-cases (c.decode t)) [
    | inl f ↦ rw (decode_all, f) (decode_all-snoc c ss s a e)
    | inr (b, f) ↦ rw (decode_all, f) (ap (◌∷◌ b) (decode_all-snoc c ss s a e))
  ]

  -- A line behind whole lines is read back as its value behind theirs.
  pub load_lines-snoc :
      (c : Codec A) (ls : List String) (s : String) (a : A)
      → All (λ l. is_line l ≡ true) ls
      → is_line s ≡ true
      → is_blank s ≡ false
      → c.decode s ≡ some a
      → load_lines c (concat_lines (ls ++ (s ∷ []))) ≡ load_lines c (concat_lines ls) ++ (a ∷ [])
  unfolding load_lines
  load_lines-snoc c ls s a all on_line dark e =
      rw
        (
          lines-concat_lines (ls ++ (s ∷ [])) (All-append _ ls (s ∷ []) all (on_line, tt)),
          lines-concat_lines ls all,
          keep-snoc (λ l. not (is_blank l)) ls s (rw dark refl),
        )
        (decode_all-snoc c (keep (λ l. not (is_blank l)) ls) s a e)
