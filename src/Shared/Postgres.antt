-- ===== src/Shared/Postgres.antt =====
-- What the PostgreSQL adapters of both contexts share: the errors of the driver that they tell apart,
-- the unit of work of shared/uow/pgxuow/uow.go, and, in Outbox, the store of messages.
pub mod Outbox
use go_ddd_template.Base.{Option, none, some, Result, ok, err}

-- pgx.ErrNoRows, a PgError with the code of a violated unique key, or another error.
pub data DbError : Type 0 where
  no_rows unique_violation other_failure : DbError

-- What pgxpool and pgx.Tx do: an argument. A commit that fails leaves the transaction to be rolled back.
pub record Pool (E T S : Type 0) : Type 0 where
  pub begin : S → Result E T × S
  pub commit : T → Result (E × T) S
  pub rollback : T → S

module _ {E T S V : Type 0} (pool : Pool E T S) (wrap : E → E) where
  -- The end of Within: the rollback that is deferred, or the commit.
  abbrev pub finish : (V × T) × Option E → (V × S) × Option E
  finish ((v, tx), some e) = ((v, pool.rollback tx), some e)
  finish ((v, tx), none) = elim (pool.commit tx) [
    | ok s ↦ ((v, s), none)
    | err (e, tx') ↦ ((v, pool.rollback tx'), some (wrap e))
  ]

  abbrev begun : (V × T → (V × T) × Option E) → V → Result E T × S → (V × S) × Option E
  begun fn v (err e, s) = ((v, s), some (wrap e))
  begun fn v (ok tx, s) = finish (fn (v, tx))

  -- A panic of the function, on which the deferred rollback runs too, is left out.
  unfoldable pub within : (V × T → (V × T) × Option E) → V × S → (V × S) × Option E
  within fn (v, s) = begun fn v (pool.begin s)
