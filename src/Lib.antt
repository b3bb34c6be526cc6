-- ===== src/Lib.antt =====
-- Verification library of go-ddd-template: two bounded contexts, inventory and ordering, that are
-- coupled by a transactional outbox and by a request to reserve stock, and the machinery they
-- share.
--
-- The inventory keeps one aggregate StockItem per SKU, with its free stock and its reservations,
-- which are pending until a time or confirmed. The domain service allocates the lines of a request
-- over several items, all or nothing. The use cases load aggregates through a port, call their
-- methods, save them with an optimistic version check inside a unit of work, and dispatch the
-- events. Ordering keeps Orders and Shipments: placing an order reserves stock, and an outbox
-- message confirms it.
--
-- Which file models which part (paths from the repository's root; children of a module prove what
-- their name says):
--   Inventory/Values, Reservation, Event, Errors: contexts/inventory/internal/domain/quantity.go,
--     reservation.go, event.go and errors.go; SKU of stock_item.go.
--   Inventory/StockItem: domain/stock_item.go. A method is a function from the aggregate to the
--     aggregate that it leaves and its error. Its children: Totals and Invariant (validity and
--     stock per method), Run (histories), Reap (the sweep), Commands (answers, idempotence,
--     undoing), Keys.
--   Inventory/ReservationService: domain/reservation_service.go. Its children: Atomic, Outcome,
--     Places, Stock and Duplicate.
--   Inventory/Validation: application/validation.go. Inventory/Ports: application/ports.go.
--   Inventory/Store and Store/Unit: adapter/outbound/memory/stock_rows.go, stock_store.go and
--     uow.go, over Shared/Rows for rows.go. Children: RoundTrip, Versions and Written.
--   Inventory/Application: application/reserve.go, confirm.go, release.go, reaper.go (Commands
--     holds the closures that run in the unit of work, UseCases what is around them), replenish.go
--     and query_stock.go (Stock), subscriber.go (Subscriber). Its children Rollback, ReserveCommit
--     and Reserved are over the store in memory.
--   Ordering/Ports: contexts/ordering/internal/application/ports.go. Ordering/Store and Store/Unit:
--     adapter/outbound/memory/order_rows.go, shipment_rows.go, order_store.go, shipment_store.go
--     and uow.go, with RoundTrip. Ordering/Application: messages.go; its children Place, Cancel,
--     Shipments and Queries: place_order.go, cancel_order.go, prepare_shipment.go and
--     mark_shipped.go, get_order.go, get_shipment.go and view.go; Compensation, PlaceAttempt,
--     Committed and Cancelled prove what their names say.
--   Ordering/Values, Money, Event, Errors, Order, Shipment, Validation: the same of
--     contexts/ordering/internal/domain and application/validation.go, with Order/Total, Order/Life
--     and Shipment/Life.
--   Inventory/Http and Inventory/InternalHttp: adapter/inbound/httpapi and internalhttp.
--     Ordering/Http: adapter/inbound/httpapi, with its Handlers; Located and Statuses prove what
--     the answers say. Shared/Problem, with Response, JsonPath and Extract: shared/problem, and what
--     problem.go of the three adapters has in common.
--   Ordering/InventoryClient: adapter/outbound/aclhttp and eventhttp. Integration, with Reserve,
--     Publish, Trace and Order: that client over the inventory's internal HTTP adapter.
--   Inventory/Assembly: contexts/inventory/inventory.go. Integration/Deliver: the ordering
--     context's messages at its router. Integration/InProcess: cmd/dev/acl.go and publisher.go.
--   Inventory/Postgres, with Save, and Ordering/Postgres, with Orders and Shipments:
--     adapter/outbound/postgres, over the queries as an argument, and Shared/Postgres over
--     shared/uow/pgxuow/uow.go. Their Tables are the queries of db/queries.sql on lists of rows;
--     Reading, SaveLoad, Conflict, Truncation, OrderSaveLoad, OrderUpdate and ShipmentSaveLoad prove what
--     their names say.
--   Shared/Uow: shared/uow/uow.go, with Loop (how a run ends) and Outcome (what holds after it).
--   Shared/Outbox: shared/outbox/outbox.go; Outbox/Memory: shared/outbox/memory/stores.go; with
--     Relay (one round) and Drain (the loop until the queue is empty).
--   Shared/Event: shared/event/event.go and typed.go. Shared/Correlation:
--     shared/correlation/traceparent.go; its Http: shared/correlation/corrhttp/middleware.go.
--   Base: what all share: lists, texts, Go's integers, results, times and maps.
--
-- How the code is read. An int is the pattern of its 64 bits, a number below 2 ^ 64, and arithmetic
-- wraps round (Base/Word). A map is an association list without repeated keys, in the order in
-- which the run visits it. A clock is the sequence of its readings. An error is the chain that
-- errors.Is and errors.As walk; message texts are left out except in Shared/Problem/Extract, whose
-- code reads them. A mutex makes a call one step, and Within makes a transaction one step: over the
-- stores in memory its loads, its Saves and its commit see the same committed rows, and other
-- goroutines come in between two transactions only. The program takes no lock over a transaction;
-- what a Save that comes before another's commit does is in Inventory/Store/Versions. The state
-- that a transaction or another goroutine changes is passed on explicitly; the ports of a use case,
-- the timer of the back-off and the dispatcher are parameters. The retry loop recurses on the
-- number of attempts that are left, which is exactly the number that its head lets through; decimal
-- numbers recurse on as many rounds as the number counts, which is more than its digits.
--
-- Between the two contexts a call goes through generated code on both sides, which Integration
-- takes to carry a request and an answer over unchanged, but for a date-time, whose encoding and
-- decoding are an argument (`wire`); a transport that fails is a case of the client's errors. A
-- payload is a map of its fields by their names as they are spelled; that encoding/json also takes
-- a name in other letter case is left out. A column of 32 bits holds a pattern below 2 ^ 32. In
-- Inventory/Postgres/Tables the order in which a SELECT without ORDER BY visits rows, and what a
-- timestamptz column, which holds microseconds, keeps of a time are arguments.
--
-- Not modelled: the database and the driver, beyond what the queries say of one transaction; the
-- generated HTTP code; servers, workers, logging and the wiring of the ordering context; what a
-- goroutine does while a method of a store holds its mutex.
pub mod Base
pub mod Shared
pub mod Inventory
pub mod Ordering
pub mod Integration
