-- ===== src/Inventory.antt =====
-- The inventory context (contexts/inventory/internal).
pub mod Errors
pub mod Values
pub mod Reservation
pub mod Event
pub mod StockItem
pub mod ReservationService
pub mod Validation
pub mod Ports
pub mod Store
pub mod Application
pub mod Postgres
pub mod Http
pub mod InternalHttp
pub mod Assembly
mod ItemTests
mod ServiceTests
pub mod StoreTests
mod ReservedTests
mod PostgresTests
