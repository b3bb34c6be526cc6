-- ===== src/Ordering/Postgres/ShipmentSaveLoad.antt =====
-- Save, and then Load, of a shipment on the tables: shipment_store.go of adapter/outbound/postgres.
use go_ddd_template.Base.{
  ◌<◌, ◌+◌, ◌^◌, String, true, none, List, [], ◌∷◌, ◌++◌, ◌≡◌, ◌⊎◌, inl, inr, refl, ap, eq_iff,
  eq_refl, is_empty, arith, ok, err,
}
use go_ddd_template.Shared.Postgres.{no_rows}
use go_ddd_template.Ordering.Values.{
  TrackingNumber, new_shipment_id, new_order_id, new_tracking_number,
}
use go_ddd_template.Ordering.Shipment.{
  Shipment, ShipmentStatus, preparing, shipped, other, status_string, reconstitute_shipment,
}
use go_ddd_template.Ordering.Store.RoundTrip.{IsName, IsTracked}
use go_ddd_template.Ordering.Postgres.{ShipmentRow, UpdateShipmentParams}
use go_ddd_template.Ordering.Postgres.Shipments.{
  parse_shipment_status, tracking_number_of, reconstitute, inserted_row, update_params, load,
  insert, update, save,
}
use go_ddd_template.Ordering.Postgres.Tables.{
  Tables, tables, find_shipment, insert_shipment, update_shipment_rows, update_shipment,
  allowed_shipment_status,
}

status_kept :
    (status : ShipmentStatus) (tn : String)
    → IsTracked status tn
    → (allowed_shipment_status (status_string status) ≡ true)
      × (parse_shipment_status (status_string status) ≡ ok status)
unfolding status_string parse_shipment_status
status_kept preparing tn h = (refl, refl)
status_kept shipped tn h = (refl, refl)
status_kept (other n) tn h = elim h [ ]

tracked_value : (tn : TrackingNumber) → IsName tn.value → tracking_number_of tn.value ≡ ok tn
unfolding tracking_number_of new_tracking_number
tracked_value tn h = ground (arith, h.0, h.1)

tracking_kept :
    (status : ShipmentStatus) (tn : TrackingNumber)
    → IsTracked status tn.value
    → tracking_number_of tn.value ≡ ok tn
unfolding tracking_number_of
tracking_kept preparing tn h = ground (arith, h, ap is_empty h)
tracking_kept shipped tn h = tracked_value tn h
tracking_kept (other n) tn h = elim h [ ]

-- A shipment whose identifiers are such as their constructors make, that has a tracking number
-- exactly where it is shipped, and whose next version the column holds.
pub record IsStorable (s : Shipment) : Type 0 where
  pub id_name : IsName s.id.value
  pub order_name : IsName s.order_id.value
  pub tracked : IsTracked s.status s.tracking_number.value
  pub version_small : s.version + 1 < 2 ^ 31

-- The shipment as Save leaves it, and its row.
abbrev pub next : Shipment → Shipment
next s = record s { version = s.version + 1 }

abbrev next_row : Shipment → ShipmentRow
next_row s = record {
  id = s.id.value;
  order_id = s.order_id.value;
  status = status_string s.status;
  tracking_number = s.tracking_number.value;
  version = s.version + 1;
}

reconstitute-next :
    (s : Shipment) → IsStorable s → reconstitute (next_row s) ≡ ok (record (next s) { events = [] })
unfolding reconstitute new_shipment_id new_order_id reconstitute_shipment
reconstitute-next s h = ground (
  arith,
  h.id_name.0,
  h.id_name.1,
  h.order_name.0,
  h.order_name.1,
  h.version_small,
  (status_kept s.status s.tracking_number.value h.tracked).1,
  tracking_kept s.status s.tracking_number h.tracked,
)

find_inserted :
    (row : ShipmentRow) (rows : List ShipmentRow)
    → find_shipment row.id rows ≡ err no_rows
    → find_shipment row.id (rows ++ row ∷ []) ≡ ok row
unfolding find_shipment
find_inserted row [] h = ground (arith, eq_refl row.id)
find_inserted row (r ∷ rows) h = ground (arith, h, find_inserted row rows)

find_updated :
    (p : UpdateShipmentParams) (r : ShipmentRow) (rows : List ShipmentRow)
    → find_shipment p.id rows ≡ ok r
    → r.version ≡ p.expected
    → (find_shipment p.id (update_shipment_rows p rows).0
        ≡ ok (record r {
          status = p.status;
          tracking_number = p.tracking_number;
          version = p.version;
        }))
      × (0 < (update_shipment_rows p rows).1)
unfolding find_shipment update_shipment_rows
find_updated p r [] h e = absurd (ground (arith, h))
find_updated p r (x ∷ rows) h e = ground (arith, h, e, find_updated p r rows)

find_id :
    (id : String) (r : ShipmentRow) (rows : List ShipmentRow)
    → find_shipment id rows ≡ ok r
    → r.id ≡ id
unfolding find_shipment
find_id id r [] h = absurd (ground (arith, h))
find_id id r (x ∷ rows) h = ground (arith, h, eq_iff x.id id, find_id id r rows)

-- A new shipment without a row, or one whose row is of its order and has its version.
abbrev pub IsNew : Shipment → Tables → Type 0
IsNew s t = (s.version ≡ 0) × (find_shipment s.id.value t.shipments ≡ err no_rows)

abbrev pub IsLoaded : Shipment → ShipmentRow → Tables → Type 0
IsLoaded s r t =
    (0 < s.version)
    × (find_shipment s.id.value t.shipments ≡ ok r)
    × (r.order_id ≡ s.order_id.value)
    × (r.version ≡ s.version)

abbrev pub IsCurrent : Shipment → Tables → Type 0
IsCurrent s t = IsNew s t ⊎ ((r : ShipmentRow) × IsLoaded s r t)

-- The tables that Save leaves.
saved : (s : Shipment) (t : Tables) → IsCurrent s t → Tables
saved s t (inl fresh) = record t { shipments = t.shipments ++ inserted_row s ∷ [] }
saved s t (inr loaded) = record t {
  shipments = (update_shipment_rows (update_params s) t.shipments).0;
}

updated_found :
    (s : Shipment) (r : ShipmentRow) (t : Tables)
    → IsStorable s
    → IsLoaded s r t
    → (find_shipment s.id.value (update_shipment_rows (update_params s) t.shipments).0
        ≡ ok (next_row s))
      × (0 < (update_shipment_rows (update_params s) t.shipments).1)
unfolding update_params
updated_found s r t h l =
    let found =
      find_updated (update_params s) r t.shipments l.1 (ground (arith, l.3, h.version_small)) in
    let id = find_id s.id.value r t.shipments l.1 in
    (ground (arith, found.0, id, l.2, h.version_small), found.1)

insert_fresh :
    (s : Shipment) (t : Tables)
    → IsStorable s
    → find_shipment s.id.value t.shipments ≡ err no_rows
    → insert tables s t ≡ (
      record t { shipments = t.shipments ++ inserted_row s ∷ [] },
      record s { version = 1 },
      none,
    )
unfolding insert insert_shipment
insert_fresh s t h f = ground (arith, f, (status_kept s.status s.tracking_number.value h.tracked).0)

update_loaded :
    (s : Shipment) (r : ShipmentRow) (t : Tables)
    → IsStorable s
    → IsLoaded s r t
    → update tables s t ≡ (
      record t { shipments = (update_shipment_rows (update_params s) t.shipments).0 },
      next s,
      none,
    )
unfolding update update_shipment
update_loaded s r t h l = ground (
  arith,
  h.version_small,
  updated_found s r t h l,
  (status_kept s.status s.tracking_number.value h.tracked).0,
)

save_lem :
    (s : Shipment) (t : Tables) (h : IsStorable s) (c : IsCurrent s t)
    → save tables s t ≡ (saved s t c, next s, none)
unfolding save saved
save_lem s t h (inl (z, f)) = ground (arith, z, insert_fresh s t h f)
save_lem s t h (inr (r, l)) = ground (arith, l.0, update_loaded s r t h l)

find_saved :
    (s : Shipment) (t : Tables) (h : IsStorable s) (c : IsCurrent s t)
    → find_shipment s.id.value (saved s t c).shipments ≡ ok (next_row s)
unfolding saved inserted_row
find_saved s t h (inl (z, f)) = ground (arith, z, find_inserted (inserted_row s) t.shipments f)
find_saved s t h (inr (r, l)) = (updated_found s r t h l).0

load_saved :
    (s : Shipment) (t : Tables) (h : IsStorable s) (c : IsCurrent s t)
    → load tables s.id (saved s t c) ≡ ok (record (next s) { events = [] })
unfolding load
load_saved s t h c = ground (arith, find_saved s t h c, reconstitute-next s h)

-- Save of a shipment whose identifiers are such as their constructors make, that has a tracking
-- number exactly where it is shipped, and whose next version is below 2 ^ 31, succeeds with the
-- next version if no row has its identifier and it is new, or if its row is the one it was loaded
-- from. Load of its identifier then gives the shipment back, without its events.
pub load-save :
    (s : Shipment) (t : Tables)
    → IsStorable s
    → IsCurrent s t
    → let out = save tables s t in
      (out.1 ≡ next s)
      × (out.2 ≡ none)
      × (load tables s.id out.0 ≡ ok (record (next s) { events = [] }))
load-save s t h c = rw (save_lem s t h c) (refl, refl, load_saved s t h c)
