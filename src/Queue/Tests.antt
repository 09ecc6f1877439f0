-- ===== src/Queue/Tests.antt =====
-- The backlog on concrete commands.
use room.Base.{String, ◌≡◌, refl, none, some, List, [], ◌∷◌, All, get_elem?, unwrap_or, drop, ◌==◌}
use room.Base.Text.{join}
use room.Base.Text.Lines.{is_line}
use room.Base.Text.Blank.{is_blank, is_whitespace}
use room.Base.Text.Codec.{Codec, IsEncoded, trimming}
use room.Queue.Store.{QueueItem, QueuePlugin, Env, new}
use room.Queue.Handlers.{handle, handle_add, dispatch, parse_action}
use room.Queue.Backlog.{Step, handle-Step}
use room.Queue.Saved.{IsSaved, handle-reload}

abbrev item : QueueItem
item = record {
  id = "u1";
  description = "fix it";
  added_by = "alice";
  added_at = 7;
  status = "queued";
}

abbrev codec : Codec QueueItem
codec = record { encode = λ i. some "{}"; decode = λ s. some item }

abbrev env : Env
env = record { utc = 7; uuid = "u1"; show_time = λ t. "now"; codec = codec; fault = none }

abbrev empty_queue : QueuePlugin
empty_queue = record { queue = []; file = none }

abbrev two_items : QueuePlugin
two_items = record { queue = item ∷ (record item { id = "u2" }) ∷ []; file = none }

handle-Step_example :
    let (r, q') = handle env two_items "bob" ("remove" ∷ "2" ∷ []) in
    Step env "bob"
      (parse_action (unwrap_or (get_elem? ("remove" ∷ "2" ∷ []) 0) ""))
      (drop 1 ("remove" ∷ "2" ∷ []))
      two_items.queue
      r
      q'.queue
handle-Step_example = handle-Step env two_items "bob" ("remove" ∷ "2" ∷ [])

abbrev add_it : List String
add_it = "add" ∷ "fix" ∷ "it" ∷ []

empty-IsSaved : IsSaved env empty_queue.file empty_queue.queue
unfolding IsSaved
empty-IsSaved = refl

added-IsEncoded : All (IsEncoded (trimming codec)) (handle env empty_queue "alice" add_it).1.queue
unfolding handle ◌==◌ parse_action dispatch handle_add trimming join is_line is_blank is_whitespace
added-IsEncoded = (("{}", refl, refl, refl, refl), tt)

handle-reload_example :
    let q' = (handle env empty_queue "alice" add_it).1 in
    IsSaved env q'.file q'.queue × (new env q'.file ≡ q')
handle-reload_example =
    handle-reload env empty_queue "alice" add_it refl empty-IsSaved added-IsEncoded
