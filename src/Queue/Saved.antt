-- ===== src/Queue/Saved.antt =====
-- The backlog's file holds the backlog.
use text.Mathlib.TextLemmas.{nil-append, append-nil, append_assoc}
use mathlib.Core.Option.{some-injective}
use room.Base.{
  ◌-◌, String, ◌<>◌, ◌≡◌, refl, sym, ap, ◌∙◌, true, Option, none, some, List, [], ◌∷◌, ◌++◌, arith,
  length, get_elem?, ltb, Bool-cases, Option-cases, inl, inr, unwrap_or, drop, All, is_empty,
}
use room.Base.Text.Lines.{concat_lines, concat_lines-snoc}
use room.Base.Text.Codec.{IsEncoded, trimming, encode_all, load_lines-concat_lines}
use room.Queue.Store.{
  QueueItem, QueuePlugin, Env, append_item, rewrite_queue_file, write_items, load_queue, new,
}
use room.Queue.Handlers.{
  Action, add, list, remove, pop, unknown, handle_add, handle_list, handle_remove, handle_pop,
  parse_index, dispatch, handle,
}

-- The file holds the lines of the items, in their order.
unfoldable pub IsSaved : Env → Option String → List QueueItem → Type 0
IsSaved env none items = items ≡ []
IsSaved env (some contents) items =
    (ls : List String) × (encode_all (trimming env.codec) items ≡ some ls)
    × (contents ≡ concat_lines ls)

module _ (env : Env) (works : env.fault ≡ none) where
  encode_all-snoc :
      (items : List QueueItem) (item : QueueItem) (ls : List String) (l : String)
      → encode_all (trimming env.codec) items ≡ some ls
      → env.codec.encode item ≡ some l
      → encode_all (trimming env.codec) (items ++ (item ∷ [])) ≡ some (ls ++ (l ∷ []))
  unfolding encode_all trimming
  encode_all-snoc [] item ls l e f = ground (arith, e, f)
  encode_all-snoc (x ∷ xs) item ls l e f = elim (Option-cases (env.codec.encode x)) [
    | inl g ↦ ground arith
    | inr (k, g) ↦ elim (Option-cases (encode_all (trimming env.codec) xs)) [
      | inl h ↦ ground arith
      | inr (ks, h) ↦ ground (arith, e, g, h, encode_all-snoc xs item ks l h f)
    ]
  ]

  write_items-done :
      (items : List QueueItem) (ls : List String) (out : String)
      → encode_all (trimming env.codec) items ≡ some ls
      → write_items env items out ≡ (true, out <> concat_lines ls)
  unfolding encode_all trimming write_items concat_lines
  write_items-done [] ls out e = ground (arith, e, append-nil out)
  write_items-done (x ∷ xs) ls out e = elim (Option-cases (env.codec.encode x)) [
    | inl g ↦ ground arith
    | inr (k, g) ↦ elim (Option-cases (encode_all (trimming env.codec) xs)) [
      | inl h ↦ ground arith
      | inr (ks, h) ↦ ground (
        arith,
        e,
        g,
        h,
        write_items-done xs ks (out <> (k <> "\n")) h,
        append_assoc out (k <> "\n") (concat_lines ks),
        append_assoc k "\n" (concat_lines ks),
      )
    ]
  ]

  rewrite-IsSaved :
      (items : List QueueItem)
      → All (IsEncoded (trimming env.codec)) items
      → IsSaved env (rewrite_queue_file env items).1 items
  unfolding rewrite_queue_file IsSaved
  rewrite-IsSaved items ok =
      let (ls, e, l) = load_lines-concat_lines (trimming env.codec) items ok in
      rw (rewrite_queue_file, works, write_items-done items ls "" e) (ls, e, nil-append _)

  append-IsSaved :
      (file : Option String) (items : List QueueItem) (item : QueueItem)
      → IsEncoded (trimming env.codec) item
      → IsSaved env file items
      → IsSaved env (append_item env item file).1 (items ++ (item ∷ []))
  unfolding append_item IsSaved trimming concat_lines
  append-IsSaved none items item (l, e, d, on_line, dark) h =
      rw (append_item, works, e, h)
        (l ∷ [], encode_all-snoc [] item [] l (unfold encode_all in refl) e, nil-append _)
  append-IsSaved (some contents) items item (l, e, d, on_line, dark) (ls, f, same) =
      rw (append_item, works, e)
        (
          ls ++ (l ∷ []),
          encode_all-snoc items item ls l f e,
          rw same (sym (concat_lines-snoc ls l)),
        )

  -- What is known of the file and the backlog after a command.
  abbrev Kept : QueuePlugin → Type 0
  Kept q = All (IsEncoded (trimming env.codec)) q.queue → IsSaved env q.file q.queue

  All-last :
      (P : QueueItem → Type 0) (xs : List QueueItem) (x : QueueItem) → All P (xs ++ (x ∷ [])) → P x
  All-last P [] x h = h.0
  All-last P (y ∷ ys) x h = All-last P ys x h.1

  module _ (q : QueuePlugin) (sender : String) (rest : List String)
      (saved : IsSaved env q.file q.queue) where
    handle_add-Kept : Kept (handle_add env q sender rest).1
    unfolding handle_add
    handle_add-Kept = elim rest as (λ words. Kept (handle_add env q sender words).1) [
      | [] ↦ λ ok. saved
      | word ∷ words ↦ λ ok. append-IsSaved q.file q.queue _ (All-last _ q.queue _ ok) saved
    ]

    handle_list-Kept : Kept (handle_list env q).1
    unfolding handle_list
    handle_list-Kept = elim (Bool-cases (is_empty q.queue)) [
      | inl e ↦ rw (handle_list, e) (λ ok. saved)
      | inr e ↦ rw (handle_list, e) (λ ok. saved)
    ]

    handle_pop-Kept : Kept (handle_pop env q sender).1
    unfolding handle_pop
    handle_pop-Kept =
        elim q.queue
            as (λ items.
              IsSaved env q.file items
              → Kept (handle_pop env (record q { queue = items }) sender).1) [
                | [] ↦ λ h ok. h
                | popped ∷ items ↦ λ h. rewrite-IsSaved items
              ]
          saved

    handle_remove-Kept : Kept (handle_remove env q rest).1
    unfolding handle_remove
    handle_remove-Kept = elim (Option-cases (parse_index (unwrap_or (get_elem? rest 0) ""))) [
      | inl e ↦ rw (handle_remove, e) (λ ok. saved)
      | inr (index, e) ↦ elim (Bool-cases (ltb (length q.queue) index)) [
        | inl f ↦ rw (handle_remove, e, f) (λ ok. saved)
        | inr f ↦ elim (Option-cases (get_elem? q.queue (index - 1))) [
          | inl g ↦ rw (handle_remove, e, f, g) (λ ok. saved)
          | inr (x, g) ↦ rw (handle_remove, e, f, g) (rewrite-IsSaved _)
        ]
      ]
    ]

    dispatch-Kept : (act : Action) → Kept (dispatch act env q sender rest).1
    unfolding dispatch
    dispatch-Kept add = handle_add-Kept
    dispatch-Kept list = handle_list-Kept
    dispatch-Kept remove = handle_remove-Kept
    dispatch-Kept pop = handle_pop-Kept
    dispatch-Kept (unknown a) = λ ok. saved

IsSaved-load :
    (env : Env) (file : Option String) (items : List QueueItem)
    → All (IsEncoded (trimming env.codec)) items
    → IsSaved env file items
    → load_queue env file ≡ items
unfolding IsSaved load_queue
IsSaved-load env none items ok h = sym h
IsSaved-load env (some contents) items ok (ls, e, same) =
    let (ks, f, l) = load_lines-concat_lines (trimming env.codec) items ok in
    rw (same, some-injective ls ks (sym e ∙ f)) l

-- Where the file can be written and `serde_json` reads back the line it makes of each item of the
-- backlog after a command, and the file held the backlog before it, the file holds the backlog after
-- it, and a plugin started from that file has exactly that backlog.
pub handle-reload :
    (env : Env) (q : QueuePlugin) (sender : String) (params : List String)
    → env.fault ≡ none
    → IsSaved env q.file q.queue
    → All (IsEncoded (trimming env.codec)) (handle env q sender params).1.queue
    → let q' = (handle env q sender params).1 in
      IsSaved env q'.file q'.queue × (new env q'.file ≡ q')
unfolding handle new
handle-reload env q sender params works saved ok =
    let after = (handle env q sender params).1 in
    let kept = dispatch-Kept env works q sender (drop 1 params) saved _ ok in
    (
      kept,
      ap (λ items. record { queue = items; file = after.file })
          (IsSaved-load env after.file after.queue ok kept),
    )
