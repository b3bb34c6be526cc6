-- ===== src/Shared/Postgres/Outbox.antt =====
-- The outbox on PostgreSQL: outbox.go of contexts/inventory/internal/adapter/outbound/postgres, of
-- which the ordering context has its own copy. The queries are generated code, an argument; `T` is
-- the state that they work on and `E` the type of errors.
use go_ddd_template.Base.{
  ℕ, String, Option, none, some, List, [], ◌∷◌, map, GoInt, Time, to_int32, is_empty, Result, ok,
  err, if◌then◌else◌,
}
use go_ddd_template.Shared.Outbox.{Message, Payload, MessageStore}
use go_ddd_template.Shared.Postgres.{DbError}

-- The parameters of the two inserts, and a row of the outbox.
pub record OutboxRow : Type 0 where
  pub id : String
  pub message_type : String
  pub payload : Payload
  pub trace_id : String
  pub occurred_at : Time

pub record OutboxQueries (T : Type 0) : Type 0 where
  pub insert_outbox_message : OutboxRow → T → T × Option DbError
  pub insert_event : OutboxRow → T → T × Option DbError
  pub list_unpublished_outbox : ℕ → T → Result DbError (List OutboxRow)
  pub mark_outbox_published : String → T → T × Option DbError

-- The trace of the message, or that of the context where it has none.
abbrev pub row_of_message : String → Message → OutboxRow
row_of_message context_trace m = record {
  id = m.id;
  message_type = m.type_name;
  payload = m.payload;
  trace_id = if is_empty m.trace_id then context_trace else m.trace_id;
  occurred_at = m.occurred_at;
}

abbrev pub message_of_row : OutboxRow → Message
message_of_row r = record {
  id = r.id;
  type_name = r.message_type;
  payload = r.payload;
  trace_id = r.trace_id;
  occurred_at = r.occurred_at;
}

module _ {E T : Type 0} (q : OutboxQueries T) (failed : DbError → E) where
  unfoldable pub enqueue : String → Message → T → T × Option E
  enqueue context_trace m tx =
      let row = row_of_message context_trace m in
      let (tx', refused) = q.insert_outbox_message row tx in
      elim refused [
        | some e ↦ (tx', some (failed e))
        | none ↦
            let (tx'', unlogged) = q.insert_event row tx' in
            elim unlogged [ some e ↦ (tx'', some (failed e)) | none ↦ (tx'', none) ]
      ]

  unfoldable pub unpublished : GoInt → T → Result E (List Message)
  unpublished limit tx = elim (q.list_unpublished_outbox (to_int32 limit) tx) [
    | err e ↦ err (failed e)
    | ok rows ↦ ok (map message_of_row rows)
  ]

  unfoldable pub mark_published : List String → T → T × Option E
  mark_published [] tx = (tx, none)
  mark_published (id ∷ ids) tx =
      let (tx', failure) = q.mark_outbox_published id tx in
      elim failure [ some e ↦ (tx', some (failed e)) | none ↦ mark_published ids tx' ]

  -- A store whose messages have the trace of the context where they have none.
  abbrev pub outbox_store : String → MessageStore E T
  outbox_store context_trace = record {
    enqueue = enqueue context_trace;
    unpublished = unpublished;
    mark_published = mark_published;
  }
