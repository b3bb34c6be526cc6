-- ===== src/Ordering.antt =====
-- The ordering context (contexts/ordering/internal).
pub mod Errors
pub mod Values
pub mod Money
pub mod Event
pub mod Order
pub mod Shipment
pub mod Validation
pub mod Ports
pub mod Store
pub mod Application
pub mod Postgres
pub mod Http
pub mod InventoryClient
mod Tests
mod StoreTests
mod PostgresTests
mod HttpTests
