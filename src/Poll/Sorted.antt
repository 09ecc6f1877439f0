-- ===== src/Poll/Sorted.antt =====
-- The order of what a query prints (crates/room-cli/src/oneshot/poll/commands.rs).
use room.Base.{
  ℕ, zero, suc, ◌≤◌, String, ◌≡◌, ◌⊎◌, inl, inr, refl, sym, ap, ◌∙◌, Bool, true, false, Option,
  none, some, List, [], ◌∷◌, ◌++◌, arith, keep, All, length, Bool-cases, append_nil,
}
use room.Protocol.Message.{Message, ts}
use room.Poll.Asked.{Ordered, is_at, IsSorted, IsLimit, Reports}
use room.Poll.Commands.{is_after, insert_sorted, sort_by_ts, truncate, up_to, report}

Ordered-trans :
    (ascending : Bool) (a b c : ℕ)
    → Ordered ascending a b
    → Ordered ascending b c
    → Ordered ascending a c
Ordered-trans true a b c h k = omega (arith, h, k)
Ordered-trans false a b c h k = omega (arith, h, k)

module _ {J : Type 0} where
  -- What the code tests before it goes on behind a message.
  is_after-Ordered :
      (ascending : Bool) (a b : Message J)
      → (is_after ascending a b ≡ true → Ordered ascending (ts b) (ts a))
        × (is_after ascending a b ≡ false → Ordered ascending (ts a) (ts b))
  unfolding is_after
  is_after-Ordered true a b = (λ e. ground (arith, e), λ e. ground (arith, e))
  is_after-Ordered false a b = (λ e. ground (arith, e), λ e. ground (arith, e))

module _ {J : Type 0} (ascending : Bool) where
  All-weaken :
      (a b : Message J) (ms : List (Message J))
      → Ordered ascending (ts a) (ts b)
      → All (λ c. Ordered ascending (ts b) (ts c)) ms
      → All (λ c. Ordered ascending (ts a) (ts c)) ms
  All-weaken a b [] e h = tt
  All-weaken a b (c ∷ ms) e h =
      (Ordered-trans ascending (ts a) (ts b) (ts c) e h.0, All-weaken a b ms e h.1)

  insert_sorted-All :
      (P : Message J → Type 0) (a : Message J) (ms : List (Message J))
      → P a
      → All P ms
      → All P (insert_sorted ascending a ms)
  unfolding insert_sorted
  insert_sorted-All P a [] ha hs = (ha, tt)
  insert_sorted-All P a (b ∷ ms) ha hs = elim (Bool-cases (is_after ascending a b)) [
    | inl e ↦ rw (insert_sorted, e) (hs.0, insert_sorted-All P a ms ha hs.1)
    | inr e ↦ rw (insert_sorted, e) (ha, hs)
  ]

  insert_sorted-IsSorted :
      (a : Message J) (ms : List (Message J))
      → IsSorted ascending ms
      → IsSorted ascending (insert_sorted ascending a ms)
  unfolding insert_sorted
  insert_sorted-IsSorted a [] s = (tt, tt)
  insert_sorted-IsSorted a (b ∷ ms) s =
      let order = is_after-Ordered ascending a b in
      elim (Bool-cases (is_after ascending a b)) [
        | inl e ↦
            rw (insert_sorted, e)
              (
                insert_sorted-All (λ c. Ordered ascending (ts b) (ts c)) a ms (order.0 e) s.0,
                insert_sorted-IsSorted a ms s.1,
              )
        | inr e ↦
            let before = order.1 e in
            rw (insert_sorted, e) ((before, All-weaken a b ms before s.0), s)
      ]

  pub sort_by_ts-IsSorted : (ms : List (Message J)) → IsSorted ascending (sort_by_ts ascending ms)
  unfolding sort_by_ts
  sort_by_ts-IsSorted [] = tt
  sort_by_ts-IsSorted (m ∷ ms) =
      insert_sorted-IsSorted m (sort_by_ts ascending ms) (sort_by_ts-IsSorted ms)

  insert_sorted-stable :
      (t : ℕ) (a : Message J) (ms : List (Message J))
      → keep (is_at t) (insert_sorted ascending a ms) ≡ keep (is_at t) (a ∷ ms)
  unfolding insert_sorted is_after
  insert_sorted-stable t a [] = refl
  insert_sorted-stable t a (b ∷ ms) = ground (arith, insert_sorted-stable t a ms)

  pub sort_by_ts-stable :
      (t : ℕ) (ms : List (Message J)) → keep (is_at t) (sort_by_ts ascending ms) ≡ keep (is_at t) ms
  unfolding sort_by_ts
  sort_by_ts-stable t [] = refl
  sort_by_ts-stable t (m ∷ ms) =
      insert_sorted-stable t m (sort_by_ts ascending ms) ∙ ground (arith, sort_by_ts-stable t ms)

module _ {A : Type 0} where
  truncate-take :
      (n : ℕ) (xs : List A)
      → (rest : List A) × (xs ≡ truncate n xs ++ rest)
        × (length (truncate n xs) ≤ n)
        × ((length rest ≡ 0) ⊎ (length (truncate n xs) ≡ n))
  truncate-take zero [] = ([], refl, omega arith, inl refl)
  truncate-take (suc n) [] = ([], refl, omega arith, inl refl)
  truncate-take zero (x ∷ xs) = (x ∷ xs, refl, omega arith, inr refl)
  truncate-take (suc n) (x ∷ xs) =
      let (rest, cut, short, full) = truncate-take n xs in
      (
        rest,
        ap (◌∷◌ x) cut,
        omega (arith, short),
        elim full [ inl e ↦ inl e | inr e ↦ inr (omega (arith, e)) ],
      )

pub up_to-IsLimit :
    {J : Type 0} (limit : Option ℕ) (ms : List (Message J))
    → (rest : List (Message J)) × (ms ≡ up_to limit ms ++ rest)
      × IsLimit limit (length (up_to limit ms)) (length rest)
unfolding up_to
up_to-IsLimit none ms = ([], sym (append_nil ms), refl)
up_to-IsLimit (some n) ms =
    let (rest, cut, short, full) = truncate-take n ms in (rest, cut, (short, full))

pub report-Reports :
    {J : Type 0} (target_id : Option (String × ℕ)) (ms : List (Message J))
    → Reports target_id ms (report target_id ms)
unfolding report
report-Reports none ms = refl
report-Reports (some target) [] = (_, refl)
report-Reports (some target) (m ∷ ms) = refl
