-- ===== src/Plugins/Flag.antt =====
-- The flag `--room` in crates/room-daemon/src/broker/commands/plugin.rs.
use room.Base.{
  String, ◌≡◌, refl, sym, ap, append_assoc, append_nil, Bool, false, Option, none, some, List, [],
  ◌∷◌, ◌++◌, arith, if◌then◌else◌, any, ◌==◌, ==_refl,
}

abbrev is_flag : String → Bool
is_flag p = p == "--room"

-- The loop: the room of the last flag that has a value, and the parameters that are kept.
unfoldable pub extract_from :
    List String → Option String → List String → Option String × List String
extract_from [] target cleaned = (target, cleaned)
extract_from (p ∷ []) target cleaned = (target, cleaned ++ (p ∷ []))
extract_from (p ∷ (val ∷ rest)) target cleaned =
    let found = extract_from rest (some val) cleaned in
    let kept = extract_from (val ∷ rest) target (cleaned ++ (p ∷ [])) in
    if is_flag p then found else kept

unfoldable pub extract_room_flag : List String → Option (String × List String)
unfolding extract_from
extract_room_flag params =
    let (target, cleaned) = extract_from params none [] in
    elim target [ none ↦ none | some room_id ↦ some (room_id, cleaned) ]

extract_from-plain :
    (params : List String) (target : Option String) (cleaned : List String)
    → any is_flag params ≡ false
    → extract_from params target cleaned ≡ (target, cleaned ++ params)
unfolding extract_from
extract_from-plain [] target cleaned h = ap (λ c. (target, c)) (sym (append_nil cleaned))
extract_from-plain (p ∷ []) target cleaned h = refl
extract_from-plain (p ∷ (val ∷ rest)) target cleaned h =
    let rest' = extract_from-plain (val ∷ rest) target (cleaned ++ (p ∷ [])) in
    ground (arith, h, rest', append_assoc cleaned (p ∷ []) (val ∷ rest))

module _ (room : String) (behind : List String) where
  extract_from-flag :
      (before : List String) (target : Option String) (cleaned : List String)
      → any is_flag before ≡ false
      → any is_flag behind ≡ false
      → extract_from (before ++ ("--room" ∷ (room ∷ behind))) target cleaned
        ≡ (some room, cleaned ++ (before ++ behind))
  unfolding extract_from
  extract_from-flag [] target cleaned h k =
      let rest = extract_from-plain behind (some room) cleaned in
      ground (arith, ==_refl "--room", rest, k)
  extract_from-flag (p ∷ []) target cleaned h k =
      let rest = extract_from-flag [] target (cleaned ++ (p ∷ [])) in
      ground (arith, h, k, rest, append_assoc cleaned (p ∷ []) behind)
  extract_from-flag (p ∷ (q ∷ before)) target cleaned h k =
      let rest = extract_from-flag (q ∷ before) target (cleaned ++ (p ∷ [])) in
      ground (arith, h, k, rest, append_assoc cleaned (p ∷ []) (q ∷ (before ++ behind)))

  -- A flag with its room is found wherever it stands among parameters without another flag, and taken out
  -- of them; without a flag there is no room.
  pub extract_room_flag_lem :
      (before : List String)
      → any is_flag before ≡ false
      → any is_flag behind ≡ false
      → (extract_room_flag (before ++ ("--room" ∷ (room ∷ behind))) ≡ some (room, before ++ behind))
        × (extract_room_flag before ≡ none)
  unfolding extract_room_flag
  extract_room_flag_lem before h k = (
    ground (arith, extract_from-flag before none [] h k),
    ground (arith, extract_from-plain before none [] h),
  )
