-- ===== src/Delivery/Trail/Creation.antt =====
-- Creating a delivery with its first event: `createDelivery` of
-- src/modules/delivery/delivery.repository.ts.
use doot_backend.Base.{ℕ, ◌≡◌, inl, inr, none, some, arith, Option-cases}
use doot_backend.Delivery.{DeliveryRow, find_delivery}
use doot_backend.Delivery.Tables.{DeliveryTables}
use doot_backend.Delivery.Lifecycle.{
  NewDelivery, created_tables, create_delivery, find_delivery_row, write_tables,
}
use doot_backend.Delivery.Trail.{here, continue, IsLogged, Follows, Follows-refl}
use doot_backend.Delivery.Trail.Rules.{Advances}
use doot_backend.Payment.Store.{Store}

created-IsLogged :
    (input : NewDelivery) (t : DeliveryTables)
    → find_delivery input.row.id t.deliveries ≡ none
    → IsLogged t
    → IsLogged (created_tables input t)
unfolding continue
created-IsLogged input t fresh v = record {
  told = λ k d h. ground (arith, v.told k d, v.untold k, fresh, h);
  untold = λ k h. ground (arith, v.untold k, h);
}

created-found :
    (input : NewDelivery) (t : DeliveryTables)
    → find_delivery input.row.id t.deliveries ≡ none
    → (k : ℕ) (d : DeliveryRow) → find_delivery k t.deliveries ≡ some d
    → find_delivery k (created_tables input t).deliveries ≡ some d
created-found input t fresh k d h = ground (arith, fresh, h)

created-Follows :
    (input : NewDelivery) (s : Store)
    → find_delivery input.row.id s.delivery_tables.deliveries ≡ none
    → Follows s (write_tables (created_tables input) s).1
created-Follows input s fresh = record {
  moved = λ k d h. (d, created-found input s.delivery_tables fresh k d h, here);
  logged = created-IsLogged input s.delivery_tables fresh;
  verified = λ h. h;
  remembered = λ provider event h. h;
  placed = λ h. h;
}

-- A new delivery is logged as created; a taken id changes nothing.
pub create_delivery-Advances : (input : NewDelivery) → Advances (create_delivery input)
unfolding create_delivery find_delivery_row
create_delivery-Advances input s =
    elim (Option-cases (find_delivery input.row.id s.delivery_tables.deliveries)) [
      | inl fresh ↦ rw fresh (created-Follows input s fresh)
      | inr (d, taken) ↦ rw taken (Follows-refl s)
    ]
