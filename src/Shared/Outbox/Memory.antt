-- ===== src/Shared/Outbox/Memory.antt =====
-- The store in memory: shared/outbox/memory/stores.go. Every method runs under the one mutex, so a
-- call is a step.
use go_ddd_template.Base.{
  String, Bool, true, false, Option, none, some, List, [], ◌∷◌, ◌++◌, GoInt, less_int, leb, length,
  ◌&&◌, ok, if◌then◌else◌,
}
use go_ddd_template.Base.Dict.{Dict, lookup, insert}
use go_ddd_template.Shared.Outbox.{Message, MessageStore}

pub record Stores : Type 0 where
  -- what is not sent yet
  pub queue : List Message
  -- all that was ever committed
  pub log : List Message

unfoldable pub new_stores : Stores
new_stores = record { queue = []; log = [] }

unfoldable pub commit_staged : List Message → Stores → Stores
commit_staged [] s = s
commit_staged (m ∷ msgs) s = record s { queue = s.queue ++ m ∷ msgs; log = s.log ++ m ∷ msgs }

unfoldable pub enqueue : Message → Stores → Stores
enqueue m s = record s { queue = s.queue ++ m ∷ []; log = s.log ++ m ∷ [] }

-- The loop of `unpublished`, over the queue that is left and what it has taken.
unfoldable pub take_loop : GoInt → List Message → List Message → List Message
take_loop limit [] out = out
take_loop limit (m ∷ queue) out =
    let out' = out ++ m ∷ [] in
    let rest = take_loop limit queue out' in
    if less_int 0 limit && leb limit (length out') then out' else rest

unfoldable pub unpublished : GoInt → Stores → List Message
unfolding take_loop
unpublished limit s = take_loop limit s.queue []

-- drop[id] = true for each id.
unfoldable pub drop_set : List String → Dict Bool → Dict Bool
drop_set [] drop = drop
drop_set (id ∷ ids) drop = drop_set ids (insert id true drop)

-- drop[m.ID], which is false for a missing key.
abbrev pub is_dropped : Option Bool → Bool
is_dropped none = false
is_dropped (some b) = b

unfoldable pub keep_loop : Dict Bool → List Message → List Message → List Message
keep_loop drop [] kept = kept
keep_loop drop (m ∷ queue) kept =
    keep_loop drop queue (if is_dropped (lookup m.id drop) then kept else kept ++ m ∷ [])

unfoldable pub mark_published : List String → Stores → Stores
unfolding drop_set keep_loop lookup insert
mark_published ids s = record s { queue = keep_loop (drop_set ids []) s.queue [] }

-- outboxView: the interface, whose errors are always nil.
abbrev pub outbox_view : {E : Type 0} → MessageStore E Stores
outbox_view = record {
  enqueue = λ m s. (enqueue m s, none);
  unpublished = λ limit s. ok (unpublished limit s);
  mark_published = λ ids s. (mark_published ids s, none);
}
