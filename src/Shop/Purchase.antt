-- ===== src/Shop/Purchase.antt =====
-- What a purchase passed, and what it wrote.
use mathlib.Core.Path.{subst₂}
use potg.Base.{
  ℕ, ◌+◌, ◌-◌, ◌*◌, ◌≤◌, ◌<◌, ◌≡◌, sym, ◌∙◌, ap, subst, true, false, List, [], ◌∷◌, ltb, ◌==◌,
  if◌then◌else◌, not, some, none, ◌&&◌, arith, inl, inr, Bool-cases,
}
use potg.Base.Int.{ℤ, pos, pos_part, ◌+ℤ◌, ◌≤ℤ◌, leb_ℤ, int_laws}
use potg.Base.Rows.{select, take, length, any_of, update_where}
use potg.Base.Keyed.{find_by, find_by_key, find_by-save_by}
use potg.Base.Tx.{
  Tx, ok, Error, Result-cases, >>=-inv, >>-inv, or_throw_inv, or_throw, pure, throw_if, ◌>>=◌, ◌>>◌,
  bad_quantity, product_not_found, product_not_active, put, no_coupons,
}
use potg.Ledger.{Book, burn}
use potg.Ledger.Users.{total_balance}
use potg.Ledger.Integrity.{IsSound}
use potg.Ledger.Issue.{burn_effect}
use potg.ShopTables.{
  Coupon, ProductStatus, active, completed, Product, Order, Shop, product_key, on_book,
  is_active_status, is_voucher,
}
use potg.Shop.{
  sort_by_age, free_coupon, save_coupons, bought, check_limit, in_stock, take_stock, assign_coupons,
  mark_sold_out, order_ref, purchase,
}

pub on_book_inv :
    {A : Type 0} (m : Tx Book A) (s t : Shop) (a : A)
    → on_book m s ≡ ok (a, t)
    → (m s.book ≡ ok (a, t.book)) × (t ≡ record s { book = t.book })
on_book_inv m s t a e = elim (Result-cases (m s.book)) [
  | inl ((x, b), f) ↦ (ground arith, ground arith)
  | inr (x, f) ↦ absurd (ground arith)
]

abbrev pub sold : ℕ → Product → Product
sold q p = record p { stock = p.stock - q; total_sold = p.total_sold +ℤ pos q }

abbrev pub order_of : ℕ → Product → ℕ → ℕ → Order
order_of user p quantity new_id = record {
  id = new_id;
  product_id = p.id;
  buyer_id = user;
  quantity = quantity;
  unit_price = p.price;
  total_price = p.price * quantity;
  status = completed;
  delivered_at = none;
  cancelled_at = none;
}

-- The parts of `purchase`, each what is left after a step.
abbrev finish_part : Product → ℕ → ℕ → ℕ → Tx Shop Order
finish_part p user q n =
    assign_coupons p user q >> (mark_sold_out p.id >> pure (order_of user p q n))

abbrev pay_part : Product → ℕ → ℕ → ℕ → Tx Shop Order
pay_part p user q n = on_book (burn user (pos (p.price * q)) "MARKET_BUY" (order_ref n)) >>= λ _.
    finish_part p user q n

abbrev order_part : Product → ℕ → ℕ → ℕ → Tx Shop Order
order_part p user q n t =
    (put (record t { orders = order_of user p q n ∷ t.orders }) >> pay_part p user q n) t

abbrev stock_part : ℕ → Product → ℕ → ℕ → ℕ → Tx Shop Order
stock_part i p user q n = take_stock i q >> order_part p user q n

abbrev limit_part : ℕ → Product → ℕ → ℕ → ℕ → Tx Shop Order
limit_part i p user q n = check_limit p user q >> stock_part i p user q n

abbrev count_part : ℕ → Product → ℕ → ℕ → ℕ → Tx Shop Order
count_part i p user q n = throw_if (ltb p.stock q) Error.out_of_stock >> limit_part i p user q n

abbrev active_part : ℕ → ℕ → ℕ → ℕ → Product → Tx Shop Order
active_part i user q n p =
    throw_if (not (is_active_status p.status)) product_not_active >> count_part i p user q n

abbrev found_part : ℕ → ℕ → ℕ → ℕ → Tx Shop Order
found_part user i q n s =
    (or_throw (find_by product_key i s.products) product_not_found >>= active_part i user q n) s

-- What the purchase documents as its checks.
pub record Allowed (user i : ℕ) (amount : ℤ) (s : Shop) (p : Product) : Type 0 where
  pub positive : pos 1 ≤ℤ amount
  pub found : find_by product_key i s.products ≡ some p
  pub on_sale : p.status ≡ active
  pub enough : pos_part amount ≤ p.stock
  pub limit : 0 < p.purchase_limit → bought i user s + pos_part amount ≤ p.purchase_limit

-- What it did to the ledger and to the product.
pub record Bought (user i : ℕ) (amount : ℤ) (n : ℕ) (s t : Shop) (p : Product) (o : Order)
    : Type 0 where
  pub sound : IsSound t.book
  pub charged :
      total_balance t.book.users +ℤ pos (p.price * pos_part amount) ≡ total_balance s.book.users
  pub order : o ≡ order_of user p (pos_part amount) n
  pub listed : t.orders ≡ o ∷ s.orders
  pub product :
      find_by product_key i t.products
      ≡ some (record (sold (pos_part amount) p) {
        status = if p.stock - pos_part amount == 0 then ProductStatus.out_of_stock else p.status;
      })

active_of : (x : ProductStatus) → not (is_active_status x) ≡ false → x ≡ active
active_of x e = ground arith

check_limit_inv :
    (p : Product) (user q : ℕ) (s t : Shop)
    → check_limit p user q s ≡ ok (tt, t)
    → (t ≡ s) × (0 < p.purchase_limit → bought p.id user s + q ≤ p.purchase_limit)
unfolding check_limit
check_limit_inv p user q s t e =
    elim (Bool-cases (ltb 0 p.purchase_limit && ltb p.purchase_limit (bought p.id user s + q))) [
      | inl n ↦ absurd (ground arith)
      | inr n ↦ (ground arith, λ h. ground arith)
    ]

take_stock_inv :
    (i q : ℕ) (s t : Shop)
    → take_stock i q s ≡ ok (tt, t)
    → t ≡ record s { products = update_where (in_stock i q) (sold q) s.products }
unfolding take_stock
take_stock_inv i q s t e =
    let after : Shop = record s { products = update_where (in_stock i q) (sold q) s.products } in
    let (_, f) =
      >>-inv (not (any_of (in_stock i q) s.products)) Error.out_of_stock (put after) {s = s} e in
    ground arith

abbrev coupons_for : Product → ℕ → Shop → List Coupon
coupons_for p q s = take q (sort_by_age (select (free_coupon p.id) s.coupons))

assign_coupons_inv :
    (p : Product) (user q : ℕ) (s t : Shop)
    → assign_coupons p user q s ≡ ok (tt, t)
    → t ≡ record s { coupons = t.coupons }
unfolding assign_coupons
assign_coupons_inv p user q s t e = elim (Bool-cases (not (is_voucher p.category))) [
  | inl n ↦ let f : pure tt s ≡ ok (tt, t) = rw n at e in ground arith
  | inr n ↦
      let after : Shop = record s {
        coupons = save_coupons true (some user) (coupons_for p q s) s.coupons;
      } in
      let f : (throw_if (ltb (length (coupons_for p q s)) q) no_coupons >> put after) s
          ≡ ok (tt, t) =
        rw n at e in
      let (_, g) = >>-inv (ltb (length (coupons_for p q s)) q) no_coupons (put after) {s = s} f in
      ground arith
]

mark_sold_out_inv :
    (i : ℕ) (p : Product) (s t : Shop)
    → find_by product_key i s.products ≡ some p
    → mark_sold_out i s ≡ ok (tt, t)
    → (t ≡ record s { products = t.products })
      × (find_by product_key i t.products
          ≡ some
              (record p { status = if p.stock == 0 then ProductStatus.out_of_stock else p.status }))
unfolding mark_sold_out
mark_sold_out_inv i p s t f e = elim (Bool-cases (p.stock == 0)) [
  | inl n ↦
      let row : Product = record p { status = ProductStatus.out_of_stock } in
      let own = find_by_key product_key i s.products p f in
      (ground arith, ground (arith, find_by-save_by product_key i row s.products))
  | inr n ↦ (ground arith, ground arith)
]

find_sold :
    (i q : ℕ) (ps : List Product) (p : Product)
    → find_by product_key i ps ≡ some p
    → q ≤ p.stock
    → find_by product_key i (update_where (in_stock i q) (sold q) ps) ≡ some (sold q p)
find_sold i q [] p f h = cc
find_sold i q (x ∷ ps) p f h = elim (Bool-cases (x.id == i)) [
  | inl z ↦ ground arith
  | inr z ↦ ground (arith, find_sold i q ps p)
]

-- From a sound ledger, a purchase that goes through passed every check of `Allowed`. It lowers
-- the sum of all balances by the price, takes the quantity from the stock, marks the product when
-- nothing is left, and adds one order.
pub purchase-Bought :
    (user i : ℕ) (amount : ℤ) (n : ℕ) (s t : Shop) (o : Order)
    → IsSound s.book
    → purchase user i amount n s ≡ ok (o, t)
    → (p : Product) × Allowed user i amount s p × Bought user i amount n s t p o
unfolding purchase
purchase-Bought user i amount n s t o h e =
    let q = pos_part amount in
    let (g1, e1) = >>-inv (leb_ℤ amount (pos 0)) bad_quantity (found_part user i q n) {s = s} e in
    let (p, f, e2) =
      or_throw_inv (find_by product_key i s.products) product_not_found (active_part i user q n)
        {s = s} e1 in
    let (g3, e3) =
      >>-inv (not (is_active_status p.status)) product_not_active (count_part i p user q n) {s = s}
        e2 in
    let (g4, e4) = >>-inv (ltb p.stock q) Error.out_of_stock (limit_part i p user q n) {s = s} e3 in
    let (_, s1, c1, e5) =
      >>=-inv (check_limit p user q) (λ _. stock_part i p user q n) {s = s} e4 in
    let (_, s2, c2, e6) = >>=-inv (take_stock i q) (λ _. order_part p user q n) {s = s1} e5 in
    let s3 : Shop = record s2 { orders = order_of user p q n ∷ s2.orders } in
    let (tx, s4, c4, e7) =
      >>=-inv (on_book (burn user (pos (p.price * q)) "MARKET_BUY" (order_ref n)))
        (λ _. finish_part p user q n) {s = s3} e6 in
    let (_, s5, c5, e8) =
      >>=-inv (assign_coupons p user q) (λ _. mark_sold_out p.id >> pure (order_of user p q n))
        {s = s4} e7 in
    let (_, s6, c6, e9) =
      >>=-inv (mark_sold_out p.id) (λ _. pure (order_of user p q n)) {s = s5} e8 in
    let (b1, lim) = check_limit_inv p user q s s1 c1 in
    let b2 = take_stock_inv i q s1 s2 c2 in
    let (bq, b4) =
      on_book_inv (burn user (pos (p.price * q)) "MARKET_BUY" (order_ref n)) s3 s4 tx c4 in
    let b5 = assign_coupons_inv p user q s4 s5 c5 in
    let own = find_by_key product_key i s.products p f in
    let enough : q ≤ p.stock = ground arith in
    let products5 : s5.products ≡ update_where (in_stock i q) (sold q) s.products =
      ap (λ z. z.products) b5
      ∙ (ap (λ z. z.products) b4
          ∙ (ap (λ z. z.products) b2
              ∙ ap (λ z. update_where (in_stock i q) (sold q) z.products) b1)) in
    let book3 : s2.book ≡ s.book = ap (λ z. z.book) b2 ∙ ap (λ z. z.book) b1 in
    let found5 : find_by product_key p.id s5.products ≡ some (sold q p) =
      subst₂ (λ k z. find_by product_key k z ≡ some (sold q p)) (sym own) (sym products5)
        (find_sold i q s.products p f enough) in
    let (b6, found6) = mark_sold_out_inv p.id (sold q p) s5 s6 found5 c6 in
    let tb : s6 ≡ t = ground arith in
    let burned =
      burn_effect user (pos (p.price * q)) "MARKET_BUY" (order_ref n) s3.book tx s4.book
        (subst IsSound (sym book3) h) bq in
    let book6 : s6.book ≡ s4.book = ap (λ z. z.book) b6 ∙ ap (λ z. z.book) b5 in
    let orders6 : s6.orders ≡ s3.orders =
      ap (λ z. z.orders) b6 ∙ (ap (λ z. z.orders) b5 ∙ ap (λ z. z.orders) b4) in
    let orders3 : s2.orders ≡ s.orders = ap (λ z. z.orders) b2 ∙ ap (λ z. z.orders) b1 in
    let oo : order_of user p q n ≡ o = ground arith in
    (
      p,
      record {
        positive = ground arith;
        found = f;
        on_sale = active_of p.status g3;
        enough = enough;
        limit = λ z. subst (λ k. bought k user s + q ≤ p.purchase_limit) own (lim z);
      },
      record {
        sound = subst IsSound (sym book6 ∙ ap (λ z. z.book) tb) burned.sound;
        charged =
            subst₂ (λ x y. total_balance x.users +ℤ pos (p.price * q) ≡ total_balance y.users)
              (sym book6 ∙ ap (λ z. z.book) tb) book3 (burned.total ∙ omega int_laws);
        order = sym oo;
        listed =
            subst₂ (λ x y. x.orders ≡ y ∷ s.orders) tb oo
              (orders6 ∙ ap (λ z. order_of user p q n ∷ z) orders3);
        product =
            subst₂
              (λ k z.
                find_by product_key k z.products
                ≡ some (record (sold q p) {
                  status = if p.stock - q == 0 then ProductStatus.out_of_stock else p.status;
                }))
              own tb found6;
      },
    )
