-- ===== src/Queue/Backlog.antt =====
-- The backlog as a first-in, first-out queue.
use room.Base.{
  ℕ, suc, zero, ◌+◌, ◌-◌, ◌≤◌, ◌∙◌, String, ◌≡◌, refl, ap, Bool, some, List, [], ◌∷◌, ◌++◌, arith,
  length, get_elem?, ltb, Bool-cases, Option-cases, inl, inr, unwrap_or, drop,
}
use room.Base.Text.{join}
use room.Queue.Store.{QueueItem, QueuePlugin, Env}
use room.Queue.Handlers.{
  PluginResult, reply, Action, add, list, remove, pop, unknown, written, new_item, handle_add,
  handle_list, handle_remove, handle_pop, remove_at, parse_index, parse_action, dispatch, handle,
}

-- What a command, by its action and the words behind it, may do: refuse or list and change nothing,
-- put the sender's new item last, take the first item, or take the item at a place counted from 1.
pub data Step (env : Env) (sender : String) (act : Action) (rest : List String)
    : List QueueItem → PluginResult → List QueueItem → Type 0 where
  keeps : (q : List QueueItem) (said : String) → Step env sender act rest q (reply said) q
  adds :
      (q : List QueueItem) (said : String) (done : Bool)
      → act ≡ add
      → Step env sender act rest q
          (written done said)
          (q ++ (new_item env sender (join " " rest) ∷ []))
  pops :
      (first : QueueItem) (q : List QueueItem) (said : String) (done : Bool)
      → act ≡ pop
      → Step env sender act rest (first ∷ q) (written done said) q
  removes :
      (before : List QueueItem) (item : QueueItem) (behind : List QueueItem) (said : String)
      (done : Bool)
      → act ≡ remove
      → parse_index (unwrap_or (get_elem? rest 0) "") ≡ some (length before + 1)
      → Step env sender act rest (before ++ (item ∷ behind)) (written done said) (before ++ behind)

-- The item at a place that exists, and the list without it.
abbrev Parts : ℕ → List QueueItem → QueueItem → Type 0
Parts i xs x =
    (before : List QueueItem) × (behind : List QueueItem) × (xs ≡ before ++ (x ∷ behind))
    × (remove_at i xs ≡ before ++ behind)
    × (length before ≡ i)

get_elem?-Parts :
    (i : ℕ) (xs : List QueueItem) (x : QueueItem) → get_elem? xs i ≡ some x → Parts i xs x
unfolding remove_at
get_elem?-Parts i [] x e = cc
get_elem?-Parts zero (y ∷ ys) x e = ([], ys, ground arith, refl, refl)
get_elem?-Parts (suc i) (y ∷ ys) x e =
    let (before, behind, xs, removed, at) = get_elem?-Parts i ys x e in
    (y ∷ before, behind, ap (◌∷◌ y) xs, ap (◌∷◌ y) removed, ap suc at)

parse_index-≤ : (s : String) (n : ℕ) → parse_index s ≡ some n → 1 ≤ n
unfolding parse_index
parse_index-≤ s n e = ground arith

module _ (env : Env) (q : QueuePlugin) (sender : String) (rest : List String) where
  handle_add-Step :
      let (r, q') = handle_add env q sender rest in Step env sender add rest q.queue r q'.queue
  unfolding handle_add
  handle_add-Step =
      elim rest
        as (λ words.
          let (r, q') = handle_add env q sender words in
          Step env sender add words q.queue r q'.queue) [
            | [] ↦ Step.keeps _ _
            | word ∷ words ↦ Step.adds _ _ _ refl
          ]

  handle_pop-Step :
      let (r, q') = handle_pop env q sender in Step env sender pop rest q.queue r q'.queue
  unfolding handle_pop
  handle_pop-Step =
      elim q.queue
        as (λ items.
          let (r, q') = handle_pop env (record q { queue = items }) sender in
          Step env sender pop rest items r q'.queue) [
            | [] ↦ Step.keeps _ _
            | popped ∷ items ↦ Step.pops _ _ _ _ refl
          ]

  handle_list-Step : let (r, q') = handle_list env q in Step env sender list rest q.queue r q'.queue
  unfolding handle_list
  handle_list-Step =
      elim q.queue
        as (λ items.
          let (r, q') = handle_list env (record q { queue = items }) in
          Step env sender list rest items r q'.queue) [
            | [] ↦ Step.keeps _ _
            | first ∷ items ↦ Step.keeps _ _
          ]

  Parts-Step :
      (index : ℕ) (xs : List QueueItem) (x : QueueItem) (done : Bool) (said : String)
      → parse_index (unwrap_or (get_elem? rest 0) "") ≡ some index
      → 1 ≤ index
      → Parts (index - 1) xs x
      → Step env sender remove rest xs (written done said) (remove_at (index - 1) xs)
  Parts-Step index xs x done said e le (before, behind, parts, removed, at) =
      rw (removed, parts)
        (Step.removes before x behind said done refl (e ∙ ap some (omega (arith, at, le))))

  handle_remove-Step :
      let (r, q') = handle_remove env q rest in Step env sender remove rest q.queue r q'.queue
  unfolding handle_remove
  handle_remove-Step = elim (Option-cases (parse_index (unwrap_or (get_elem? rest 0) ""))) [
    | inl e ↦ rw (handle_remove, e) (Step.keeps _ _)
    | inr (index, e) ↦ elim (Bool-cases (ltb (length q.queue) index)) [
      | inl f ↦ rw (handle_remove, e, f) (Step.keeps _ _)
      | inr f ↦ elim (Option-cases (get_elem? q.queue (index - 1))) [
        | inl g ↦ rw (handle_remove, e, f, g) (Step.keeps _ _)
        | inr (x, g) ↦
            rw (handle_remove, e, f, g)
              (Parts-Step index q.queue x _ _ e (parse_index-≤ _ index e)
                (get_elem?-Parts (index - 1) q.queue x g))
      ]
    ]
  ]

  dispatch-Step :
      (act : Action)
      → let (r, q') = dispatch act env q sender rest in Step env sender act rest q.queue r q'.queue
  unfolding dispatch
  dispatch-Step add = handle_add-Step
  dispatch-Step list = handle_list-Step
  dispatch-Step remove = handle_remove-Step
  dispatch-Step pop = handle_pop-Step
  dispatch-Step (unknown a) = Step.keeps _ _

-- Every command either changes nothing and replies to the sender alone, or, for `add`, puts the
-- sender's new item last, for `pop`, takes the first item, and for `remove`, takes the item at the
-- place given, keeping the order of the others.
pub handle-Step :
    (env : Env) (q : QueuePlugin) (sender : String) (params : List String)
    → let (r, q') = handle env q sender params in
      Step env sender
        (parse_action (unwrap_or (get_elem? params 0) ""))
        (drop 1 params)
        q.queue
        r
        q'.queue
unfolding handle
handle-Step env q sender params = dispatch-Step env q sender (drop 1 params) _
