-- ===== src/Shop.antt =====
-- The catalogue and the purchase of backend/src/modules/shop/shop.service.ts
pub mod Purchase
use potg.Base.{
  ℕ, suc, String, ◌+◌, ◌-◌, ◌*◌, ◌≤◌, ◌<◌, ◌≡◌, refl, Bool, true, false, List, [], ◌∷◌, ltb, leb,
  ◌==◌, if◌then◌else◌, not, some, none, ◌||◌, ◌&&◌, Option, same_id,
}
use potg.Base.Int.{ℤ, pos, pos_part, ◌+ℤ◌, ◌-ℤ◌, leb_ℤ}
use potg.Base.Rows.{select, find_one, any_of, length, sum_of, take, update_where}
use potg.Base.Keyed.{find_by, save_by}
use potg.Base.Tx.{
  Tx, Result, ok, err, pure, throw, throw_if, or_throw, get, put, ◌>>=◌, ◌>>◌, bad_quantity,
  product_not_found, product_not_active, Error, limit_exceeded, no_coupons, order_not_found,
  not_completed, already_cancelled, cancel_delivered, item_not_found, already_owned,
  member_not_found,
}
use potg.Ledger.{Book, Opts, mint, burn}
use potg.ShopTables.{
  ProductStatus, active, inactive, ProductCategory, voucher, OrderStatus, completed, delivered,
  cancelled, Product, Order, Coupon, ProfileItem, MemberItem, ClanMember, Shop, product_key,
  order_key, coupon_key, on_book, save_product, save_order, is_active_status, is_voucher,
  is_cancelled,
}

abbrev pub order_quantity : Order → ℕ
order_quantity o = o.quantity

-- `updateProduct`, on the columns that the model keeps.
unfoldable pub update_product : ℕ → Option ℕ → Option ℕ → Option Bool → Tx Shop Product
update_product i price stock on_sale = do
  s ← get
  p ← or_throw (find_by product_key i s.products) product_not_found
  let row : Product = record p {
    price = elim price [ none ↦ p.price | some x ↦ x ];
    stock = elim stock [ none ↦ p.stock | some x ↦ x ];
    status = elim on_sale [ none ↦ p.status | some b ↦ if b then active else inactive ];
  }
  save_product row
  pure row

unfoldable pub soft_delete_product : ℕ → Tx Shop (Unit {0})
soft_delete_product i = do
  s ← get
  p ← or_throw (find_by product_key i s.products) product_not_found
  save_product (record p { status = inactive })

-- The orders that count against a buyer's limit.
abbrev pub counts_for : ℕ → ℕ → Order → Bool
counts_for product buyer o =
    o.product_id == product && o.buyer_id == buyer && not (is_cancelled o.status)

abbrev pub bought : ℕ → ℕ → Shop → ℕ
bought product buyer s = sum_of order_quantity (select (counts_for product buyer) s.orders)

unfoldable pub check_limit : Product → ℕ → ℕ → Tx Shop (Unit {0})
check_limit p buyer quantity s =
    throw_if (ltb 0 p.purchase_limit && ltb p.purchase_limit (bought p.id buyer s + quantity))
      limit_exceeded s

-- `UPDATE shop_products SET stock = stock - q, total_sold = total_sold + q WHERE id AND stock >= q`;
-- no row affected is `Out of stock`.
abbrev pub in_stock : ℕ → ℕ → Product → Bool
in_stock i q p = p.id == i && leb q p.stock

unfoldable pub take_stock : ℕ → ℕ → Tx Shop (Unit {0})
take_stock i q = do
  s ← get
  throw_if (not (any_of (in_stock i q) s.products)) Error.out_of_stock
  put (record s {
    products =
        update_where (in_stock i q)
          (λ p. record p { stock = p.stock - q; total_sold = p.total_sold +ℤ pos q }) s.products;
  })

-- `order: { createdAt: 'ASC' }`
abbrev insert_by_age : Coupon → List Coupon → List Coupon
insert_by_age c [] = c ∷ []
insert_by_age c (d ∷ ds) =
    if leb c.created_at d.created_at then c ∷ d ∷ ds else d ∷ insert_by_age c ds

abbrev pub sort_by_age : List Coupon → List Coupon
sort_by_age [] = []
sort_by_age (c ∷ cs) = insert_by_age c (sort_by_age cs)

abbrev pub free_coupon : ℕ → Coupon → Bool
free_coupon product c = c.product_id == product && not c.is_used

-- Each coupon that was picked is saved with its new columns.
abbrev pub save_coupons : Bool → Option ℕ → List Coupon → List Coupon → List Coupon
save_coupons used user [] all = all
save_coupons used user (c ∷ cs) all =
    save_coupons used user cs
      (save_by coupon_key (record c { is_used = used; assigned_to = user }) all)

unfoldable pub assign_coupons : Product → ℕ → ℕ → Tx Shop (Unit {0})
assign_coupons p buyer quantity s =
    let picked = take quantity (sort_by_age (select (free_coupon p.id) s.coupons)) in
    if not (is_voucher p.category)
    then pure tt s
    else (do
      throw_if (ltb (length picked) quantity) no_coupons
      put (record s { coupons = save_coupons true (some buyer) picked s.coupons }))
        s

-- A product that ran out is marked so.
unfoldable pub mark_sold_out : ℕ → Tx Shop (Unit {0})
mark_sold_out i s = elim (find_by product_key i s.products) [
  | none ↦ pure tt s
  | some p ↦
      if p.stock == 0
      then save_product (record p { status = ProductStatus.out_of_stock }) s
      else pure tt s
]

abbrev pub order_ref : ℕ → Opts
order_ref i = record { ref_type = some "MarketOrder"; ref_id = some i; idempotency_key = none }

-- `purchase`. `amount` is the quantity asked for, and `new_id` the id that the database gives the
-- order.
unfoldable pub purchase : ℕ → ℕ → ℤ → ℕ → Tx Shop Order
purchase user_id product_id amount new_id = do
  throw_if (leb_ℤ amount (pos 0)) bad_quantity
  let quantity = pos_part amount
  s ← get
  p ← or_throw (find_by product_key product_id s.products) product_not_found
  throw_if (not (is_active_status p.status)) product_not_active
  throw_if (ltb p.stock quantity) Error.out_of_stock
  check_limit p user_id quantity
  take_stock product_id quantity
  let order : Order = record {
    id = new_id;
    product_id = p.id;
    buyer_id = user_id;
    quantity = quantity;
    unit_price = p.price;
    total_price = p.price * quantity;
    status = completed;
    delivered_at = none;
    cancelled_at = none;
  }
  t ← get
  put (record t { orders = order ∷ t.orders })
  tx ← on_book (burn user_id (pos (p.price * quantity)) "MARKET_BUY" (order_ref new_id))
  assign_coupons p user_id quantity
  mark_sold_out p.id
  pure order
