-- ===== src/Orders/Cancel.antt =====
-- Cancelling an order undoes its purchase, except for the mark that the product is sold out.
use mathlib.Core.Path.{subst₂}
use potg.Base.{
  ℕ, ◌+◌, ◌≡◌, refl, sym, ◌∙◌, ap, subst, List, [], ◌∷◌, ltb, ◌==◌, if◌then◌else◌, some, arith, inl,
  inr, Bool-cases, Option-cases,
}
use potg.Base.Int.{ℤ, pos, ◌+ℤ◌, ◌-ℤ◌, int_laws}
use potg.Base.Rows.{update_where}
use potg.Base.Keyed.{find_by, save_by, find_by_key, find_by-save_by}
use potg.Base.Tx.{Tx, ok, >>=-inv, or_throw_inv, pure, ◌>>=◌, ◌>>◌, order_not_found}
use potg.Ledger.{mint}
use potg.Ledger.Users.{total_balance}
use potg.Ledger.Integrity.{IsSound}
use potg.Ledger.Issue.{mint_effect}
use potg.ShopTables.{
  OrderStatus, cancelled, completed, delivered, Product, Order, Shop, product_key, order_key,
  on_book, save_order, is_voucher,
}
use potg.Shop.{order_ref}
use potg.Shop.Purchase.{on_book_inv}
use potg.Orders.{
  refund_order, restore_stock, release_coupons, cancel_completed, cancel_by_status, cancel_order,
}

abbrev pub restocked : Order → Product → Product
restocked o p = record p {
  stock = p.stock + o.quantity;
  total_sold = p.total_sold -ℤ pos o.quantity;
}

abbrev cancelled_row : Order → Shop → Order
cancelled_row o s = record o { status = cancelled; cancelled_at = some s.book.now }

plus_zero : (a : ℤ) → a ≡ a +ℤ pos 0
plus_zero a = omega int_laws

refund_order_inv :
    (o : Order) (s t : Shop)
    → IsSound s.book
    → refund_order o s ≡ ok (tt, t)
    → (t ≡ record s { book = t.book })
      × IsSound t.book
      × (total_balance t.book.users ≡ total_balance s.book.users +ℤ pos o.total_price)
unfolding refund_order
refund_order_inv o s t h e = elim (Bool-cases (ltb 0 o.total_price)) [
  | inr n ↦
      let q : s ≡ t = ground arith in
      let z : pos 0 ≡ pos o.total_price = ground arith in
      (
        ground arith,
        subst (λ x. IsSound x.book) q h,
        ap (λ x. total_balance x.book.users) (sym q)
            ∙ (plus_zero (total_balance s.book.users)
                ∙ ap (λ x. total_balance s.book.users +ℤ x) z),
      )
  | inl n ↦
      let step = on_book (mint o.buyer_id (pos o.total_price) "MARKET_REFUND" (order_ref o.id)) in
      let f : (step >>= λ _. pure tt) s ≡ ok (tt, t) = rw n at e in
      let (a, u, p, q) = >>=-inv step (λ _. pure tt) {s = s} f in
      let (m, fr) =
        on_book_inv (mint o.buyer_id (pos o.total_price) "MARKET_REFUND" (order_ref o.id)) s u a
          p in
      let c =
        mint_effect o.buyer_id (pos o.total_price) "MARKET_REFUND" (order_ref o.id) s.book a u.book
          h m in
      let v : u ≡ t = ground arith in
      (
        ground arith,
        subst (λ x. IsSound x.book) v c.sound,
        subst (λ x. total_balance x.book.users ≡ total_balance s.book.users +ℤ pos o.total_price) v
            (plus_zero (total_balance u.book.users) ∙ c.total),
      )
]

release_coupons_inv :
    (o : Order) (s t : Shop)
    → release_coupons o s ≡ ok (tt, t)
    → t ≡ record s { coupons = t.coupons }
unfolding release_coupons
release_coupons_inv o s t e = elim (Option-cases (find_by product_key o.product_id s.products)) [
  | inl n ↦ ground arith
  | inr (p, n) ↦ elim (Bool-cases (is_voucher p.category)) [
    | inl y ↦ ground arith
    | inr y ↦ ground arith
  ]
]

find_restocked :
    (o : Order) (i : ℕ) (ps : List Product) (p : Product)
    → find_by product_key i ps ≡ some p
    → find_by product_key i (update_where (λ x. x.id == o.product_id) (restocked o) ps)
      ≡ some (if i == o.product_id then restocked o p else p)
find_restocked o i [] p f = cc
find_restocked o i (x ∷ ps) p f = ground (arith, find_restocked o i ps p)

-- What a cancellation did.
pub record Undone (o : Order) (s t : Shop) (r : Order) : Type 0 where
  pub sound : IsSound t.book
  pub refunded : total_balance t.book.users ≡ total_balance s.book.users +ℤ pos o.total_price
  pub status : (r.status ≡ cancelled) × (r.id ≡ o.id) × (find_by order_key o.id t.orders ≡ some r)
  pub stock :
      (i : ℕ) (p : Product)
      → find_by product_key i s.products ≡ some p
      → find_by product_key i t.products ≡ some (if i == o.product_id then restocked o p else p)

abbrev close_part : Order → Tx Shop Order
close_part o s = (save_order (cancelled_row o s) >> pure (cancelled_row o s)) s

abbrev restock_part : Order → Tx Shop Order
restock_part o = restore_stock o >> (release_coupons o >> close_part o)

cancel_completed-Undone :
    (o : Order) (s t : Shop) (r : Order)
    → IsSound s.book
    → find_by order_key o.id s.orders ≡ some o
    → cancel_completed o s ≡ ok (r, t)
    → Undone o s t r
unfolding cancel_completed restore_stock
cancel_completed-Undone o s t r h f e =
    let (_, s1, c1, e1) = >>=-inv (refund_order o) (λ _. restock_part o) {s = s} e in
    let s2 : Shop = record s1 {
      products = update_where (λ x. x.id == o.product_id) (restocked o) s1.products;
    } in
    let (_, s3, c3, e3) = >>=-inv (release_coupons o) (λ _. close_part o) {s = s2} e1 in
    let (b1, sound1, total1) = refund_order_inv o s s1 h c1 in
    let b3 = release_coupons_inv o s2 s3 c3 in
    let row = cancelled_row o s3 in
    let rr : row ≡ r = ground arith in
    let tt3 : record s3 { orders = save_by order_key row s3.orders } ≡ t = ground arith in
    let book3 : s1.book ≡ t.book = sym (ap (λ z. z.book) b3) ∙ ap (λ z. z.book) tt3 in
    let orders3 : s3.orders ≡ s.orders = ap (λ z. z.orders) b3 ∙ ap (λ z. z.orders) b1 in
    let products3 : s3.products
        ≡ update_where (λ x. x.id == o.product_id) (restocked o) s.products =
      ap (λ z. z.products) b3
      ∙ ap (λ z. update_where (λ x. x.id == o.product_id) (restocked o) z.products) b1 in
    record {
      sound = subst IsSound book3 sound1;
      refunded =
          subst (λ z. total_balance z.users ≡ total_balance s.book.users +ℤ pos o.total_price) book3
            total1;
      status = (
        ap (λ z. z.status) (sym rr),
        ap (λ z. z.id) (sym rr),
        subst₂ (λ x y. find_by order_key o.id x.orders ≡ some y) tt3 rr
            (subst (λ z. find_by order_key o.id (save_by order_key row z) ≡ some row) (sym orders3)
              (find_by-save_by order_key o.id row s.orders ∙ ground arith)),
      );
      stock = λ i p g.
          subst
            (λ z.
              find_by product_key i z.products
              ≡ some (if i == o.product_id then restocked o p else p))
            tt3
            (subst
              (λ z. find_by product_key i z ≡ some (if i == o.product_id then restocked o p else p))
              (sym products3) (find_restocked o i s.products p g));
    }

completed_of :
    (x : OrderStatus) (o : Order) (s t : Shop) (r : Order)
    → cancel_by_status x o s ≡ ok (r, t)
    → (x ≡ completed) × (cancel_completed o s ≡ ok (r, t))
unfolding cancel_by_status
completed_of completed o s t r e = (refl, e)
completed_of delivered o s t r e = cc
completed_of cancelled o s t r e = cc

-- From a sound ledger, only a completed order is cancelled. The sum of all balances rises by its
-- price, its quantity returns to the stock, and no product's status changes: one that was marked
-- as sold out stays marked.
pub cancel_order-Undone :
    (i : ℕ) (s t : Shop) (r : Order)
    → IsSound s.book
    → cancel_order i s ≡ ok (r, t)
    → (o : Order) × (find_by order_key i s.orders ≡ some o)
      × (o.status ≡ completed)
      × Undone o s t r
unfolding cancel_order
cancel_order-Undone i s t r h e =
    let (o, f, e1) =
      or_throw_inv (find_by order_key i s.orders) order_not_found (λ o. cancel_by_status o.status o)
        {s = s} e in
    let (c, d) = completed_of o.status o s t r e1 in
    let own = find_by_key order_key i s.orders o f in
    (
      o,
      f,
      c,
      cancel_completed-Undone o s t r h
          (subst (λ k. find_by order_key k s.orders ≡ some o) (sym own) f) d,
    )
