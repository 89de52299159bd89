-- ===== src/Tests/Sales.antt =====
-- Runs of the shop.
use potg.Base.{ℕ, ◌≡◌, refl, false, Option, none, some, [], ◌∷◌}
use potg.Base.Int.{ℤ, pos, ◌+ℤ◌, ◌-ℤ◌}
use potg.Base.Keyed.{find_by}
use potg.Base.Tx.{Result, ok, err}
use potg.Ledger.{transfer, run, debit, credit, save_tx, mint, burn}
use potg.ShopTables.{
  ProductStatus, ProductCategory, OrderStatus, Product, Order, Coupon, Shop, product_key, order_key,
}
use potg.Shop.{purchase, check_limit, take_stock, assign_coupons, mark_sold_out}
use potg.Shop.Purchase.{Allowed, Bought, purchase-Bought}
use potg.Orders.{
  cancel_order, cancel_by_status, cancel_completed, refund_order, restore_stock, release_coupons,
}
use potg.Orders.Cancel.{Undone, cancel_order-Undone}
use potg.Tests.Money.{book, book-IsSound}

abbrev voucher_in : ℕ → ProductStatus → ℤ → Product
voucher_in n st sold = record {
  id = 6;
  category = ProductCategory.voucher;
  price = 20;
  stock = n;
  purchase_limit = 3;
  status = st;
  total_sold = sold;
}

abbrev coupon : ℕ → ℕ → Coupon
coupon i at = record {
  id = i;
  product_id = 6;
  is_used = false;
  assigned_to = none;
  created_at = at;
}

-- Two vouchers in stock.
abbrev shop : Shop
shop = record {
  book = book;
  products = voucher_in 2 ProductStatus.active (pos 5) ∷ [];
  orders = [];
  coupons = coupon 1 3 ∷ coupon 2 1 ∷ [];
  profile_items = [];
  member_items = [];
  clan_members = [];
}

abbrev after : {A : Type 0} → Shop → Result (A × Shop) → Shop
after s (ok (a, t)) = t
after s (err e) = s

abbrev order_in : OrderStatus → Option ℕ → Order
order_in st at = record {
  id = 11;
  product_id = 6;
  buyer_id = 1;
  quantity = 2;
  unit_price = 20;
  total_price = 40;
  status = st;
  delivered_at = none;
  cancelled_at = at;
}

abbrev bought_shop : Shop
bought_shop = after shop (purchase 1 6 (pos 2) 11 shop)

bought_run : purchase 1 6 (pos 2) 11 shop ≡ ok (order_in OrderStatus.completed none, bought_shop)
unfolding purchase check_limit take_stock assign_coupons mark_sold_out burn transfer run debit
    credit save_tx ◌+ℤ◌ ◌-ℤ◌
bought_run = refl

purchase-Bought_example :
    (p : Product) × Allowed 1 6 (pos 2) shop p
    × Bought 1 6 (pos 2) 11 shop bought_shop p (order_in OrderStatus.completed none)
purchase-Bought_example =
    purchase-Bought 1 6 (pos 2) 11 shop bought_shop (order_in OrderStatus.completed none)
      book-IsSound bought_run

abbrev order_shop : Shop
order_shop = record shop {
  products = voucher_in 0 ProductStatus.out_of_stock (pos 7) ∷ [];
  orders = order_in OrderStatus.completed none ∷ [];
}

abbrev undone_shop : Shop
undone_shop = after order_shop (cancel_order 11 order_shop)

undone_run : cancel_order 11 order_shop ≡ ok (order_in OrderStatus.cancelled (some 9), undone_shop)
unfolding cancel_order cancel_by_status cancel_completed refund_order restore_stock release_coupons
    mint transfer run debit credit save_tx ◌+ℤ◌ ◌-ℤ◌
undone_run = refl

-- The voucher is in stock again, and still marked as sold out.
undone_product :
    find_by product_key 6 undone_shop.products
    ≡ some (voucher_in 2 ProductStatus.out_of_stock (pos 5))
unfolding cancel_order cancel_by_status cancel_completed refund_order restore_stock release_coupons
    mint transfer run debit credit save_tx ◌+ℤ◌ ◌-ℤ◌
undone_product = refl

cancel_order-Undone_example :
    (o : Order) × (find_by order_key 11 order_shop.orders ≡ some o)
    × (o.status ≡ OrderStatus.completed)
    × Undone o order_shop undone_shop (order_in OrderStatus.cancelled (some 9))
cancel_order-Undone_example =
    cancel_order-Undone 11 order_shop undone_shop (order_in OrderStatus.cancelled (some 9))
      book-IsSound undone_run
