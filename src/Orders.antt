-- ===== src/Orders.antt =====
-- Delivery, cancellation and profile items of backend/src/modules/shop/shop.service.ts
pub mod Cancel
use potg.Base.{
  ℕ, suc, String, ◌+◌, ◌-◌, ◌*◌, ◌≤◌, ◌<◌, ◌≡◌, refl, Bool, true, false, List, [], ◌∷◌, ltb, leb,
  ◌==◌, if◌then◌else◌, not, some, none, ◌||◌, ◌&&◌, Option, same_id,
}
use potg.Base.Int.{ℤ, pos, pos_part, ◌+ℤ◌, ◌-ℤ◌, leb_ℤ}
use potg.Base.Rows.{select, find_one, any_of, length, sum_of, take, update_where}
use potg.Base.Keyed.{find_by, save_by}
use potg.Base.Tx.{
  Tx, Result, ok, err, pure, throw, throw_if, or_throw, get, put, ◌>>=◌, ◌>>◌, bad_quantity,
  product_not_found, product_not_active, Error, limit_exceeded, no_coupons, order_not_found,
  not_completed, already_cancelled, cancel_delivered, item_not_found, already_owned,
  member_not_found,
}
use potg.Ledger.{Book, Opts, mint, burn}
use potg.ShopTables.{
  ProductStatus, active, inactive, ProductCategory, voucher, OrderStatus, completed, delivered,
  cancelled, Product, Order, Coupon, ProfileItem, MemberItem, ClanMember, Shop, product_key,
  order_key, coupon_key, on_book, save_product, save_order, is_active_status, is_voucher,
  is_cancelled,
}
use potg.Shop.{save_coupons, order_ref}

unfoldable pub deliver_by_status : OrderStatus → Order → Tx Shop Order
deliver_by_status completed o = do
  s ← get
  let row : Order = record o { status = delivered; delivered_at = some s.book.now }
  save_order row
  pure row
deliver_by_status _ o = throw not_completed

-- `markDelivered`; the administrator's note is not kept.
unfoldable pub mark_delivered : ℕ → Tx Shop Order
mark_delivered i = do
  s ← get
  o ← or_throw (find_by order_key i s.orders) order_not_found
  deliver_by_status o.status o

unfoldable pub refund_order : Order → Tx Shop (Unit {0})
refund_order o =
    if ltb 0 o.total_price
    then (do
      tx ← on_book (mint o.buyer_id (pos o.total_price) "MARKET_REFUND" (order_ref o.id))
      pure tt)
    else pure tt

-- `UPDATE shop_products SET stock = stock + q, total_sold = total_sold - q WHERE id`
unfoldable pub restore_stock : Order → Tx Shop (Unit {0})
restore_stock o = do
  s ← get
  put (record s {
    products =
        update_where (λ p. p.id == o.product_id)
          (λ p. record p {
            stock = p.stock + o.quantity;
            total_sold = p.total_sold -ℤ pos o.quantity;
          })
          s.products;
  })

abbrev pub held_coupon : Order → Coupon → Bool
held_coupon o c =
    c.product_id == o.product_id && same_id c.assigned_to (some o.buyer_id) && c.is_used

-- The buyer's coupons of that product, as many as the order had, are free again.
unfoldable pub release_coupons : Order → Tx Shop (Unit {0})
release_coupons o s = elim (find_by product_key o.product_id s.products) [
  | none ↦ pure tt s
  | some p ↦
      if is_voucher p.category
      then put
          (record s {
            coupons =
                save_coupons false none (take o.quantity (select (held_coupon o) s.coupons))
                  s.coupons;
          })
          s
      else pure tt s
]

unfoldable pub cancel_completed : Order → Tx Shop Order
cancel_completed o = do
  refund_order o
  restore_stock o
  release_coupons o
  s ← get
  let row : Order = record o { status = cancelled; cancelled_at = some s.book.now }
  save_order row
  pure row

unfoldable pub cancel_by_status : OrderStatus → Order → Tx Shop Order
cancel_by_status cancelled o = throw already_cancelled
cancel_by_status delivered o = throw cancel_delivered
cancel_by_status completed o = cancel_completed o

-- `cancelOrder`; the administrator's note is not kept.
unfoldable pub cancel_order : ℕ → Tx Shop Order
cancel_order i = do
  s ← get
  o ← or_throw (find_by order_key i s.orders) order_not_found
  cancel_by_status o.status o

abbrev pub owns : ℕ → ℕ → MemberItem → Bool
owns member item m = m.member_id == member && m.item_id == item

-- `purchaseProfileItem`
unfoldable pub purchase_profile_item : ℕ → ℕ → ℕ → Tx Shop MemberItem
purchase_profile_item member_id item_id new_id = do
  s ← get
  item ←
      or_throw (find_one (λ (x : ProfileItem). x.id == item_id && x.is_active) s.profile_items)
        item_not_found
  throw_if (any_of (owns member_id item_id) s.member_items) already_owned
  member ← or_throw (find_by (λ (x : ClanMember). x.id) member_id s.clan_members) member_not_found
  tx ← on_book (
      burn member.user_id (pos item.price) "MARKET_BUY"
        (record { ref_type = some "ProfileItem"; ref_id = some item.id; idempotency_key = none }))
  t ← get
  let row : MemberItem = record {
    id = new_id;
    member_id = member_id;
    item_id = item_id;
    purchased_at = t.book.now;
  }
  put (record t { member_items = row ∷ t.member_items })
  pure row
