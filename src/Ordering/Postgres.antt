-- ===== src/Ordering/Postgres.antt =====
-- The ordering context's rows and queries on PostgreSQL: what order_store.go and shipment_store.go of
-- contexts/ordering/internal/adapter/outbound/postgres call. sqlc generates the queries from
-- contexts/ordering/db/queries.sql; they are an argument, and `T` is the state that they work on. An
-- int32 is its pattern below 2 ^ 32.
pub mod Orders
pub mod Shipments
pub mod Tables
pub mod OrderLines
pub mod OrderSaveLoad
pub mod OrderUpdate
pub mod ShipmentSaveLoad
use go_ddd_template.Base.{ℕ, String, Option, List, GoInt, Result}
use go_ddd_template.Shared.Postgres.{DbError}
use go_ddd_template.Ordering.Errors.{Error, wrapped, other_error}

-- InsertOrderParams and GetOrderByIDRow.
pub record OrderRow : Type 0 where
  pub id : String
  pub customer_id : String
  pub status : String
  pub total_amount : GoInt
  pub total_currency : String
  pub reservation_ref : String
  pub version : ℕ

-- InsertOrderLineParams and a row of ListOrderLines.
pub record OrderLineRow : Type 0 where
  pub order_id : String
  pub line_no : ℕ
  pub sku : String
  pub quantity : ℕ
  pub unit_price : GoInt
  pub currency : String

-- `expected` is Version_2.
pub record UpdateOrderParams : Type 0 where
  pub status : String
  pub version : ℕ
  pub id : String
  pub expected : ℕ

pub record ShipmentRow : Type 0 where
  pub id : String
  pub order_id : String
  pub status : String
  pub tracking_number : String
  pub version : ℕ

pub record UpdateShipmentParams : Type 0 where
  pub status : String
  pub tracking_number : String
  pub version : ℕ
  pub id : String
  pub expected : ℕ

-- The generated Queries.
pub record OrderQueries (T : Type 0) : Type 0 where
  pub get_order_by_id : String → T → Result DbError OrderRow
  pub list_order_lines : String → T → Result DbError (List OrderLineRow)
  pub insert_order : OrderRow → T → T × Option DbError
  pub insert_order_line : OrderLineRow → T → T × Option DbError
  pub update_order : UpdateOrderParams → T → T × Result DbError ℕ
  pub get_shipment_by_id : String → T → Result DbError ShipmentRow
  pub insert_shipment : ShipmentRow → T → T × Option DbError
  pub update_shipment : UpdateShipmentParams → T → T × Result DbError ℕ

-- An error of the driver, wrapped; no code asks for it behind this.
abbrev pub failed : DbError → Error
failed e = wrapped other_error
