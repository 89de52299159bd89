-- ===== src/ShopTables.antt =====
-- The tables behind the shop: backend/src/modules/shop/entities.
use potg.Base.{ℕ, Bool, true, false, List, Option}
use potg.Base.Int.{ℤ}
use potg.Base.Keyed.{save_by}
use potg.Base.Tx.{Tx, ok, err}
use potg.Ledger.{Book}

pub data ProductStatus : Type 0 where
  active inactive out_of_stock : ProductStatus

pub data ProductCategory : Type 0 where
  voucher goods game_item etc : ProductCategory

pub data OrderStatus : Type 0 where
  completed delivered cancelled : OrderStatus

-- Prices and stocks are whole numbers of at least 0, which the DTOs ask for; `total_sold` is signed.
pub record Product : Type 0 where
  pub id : ℕ
  pub category : ProductCategory
  pub price : ℕ
  pub stock : ℕ
  pub purchase_limit : ℕ
  pub status : ProductStatus
  pub total_sold : ℤ

pub record Order : Type 0 where
  pub id : ℕ
  pub product_id : ℕ
  pub buyer_id : ℕ
  pub quantity : ℕ
  pub unit_price : ℕ
  pub total_price : ℕ
  pub status : OrderStatus
  pub delivered_at : Option ℕ
  pub cancelled_at : Option ℕ

pub record Coupon : Type 0 where
  pub id : ℕ
  pub product_id : ℕ
  pub is_used : Bool
  pub assigned_to : Option ℕ
  pub created_at : ℕ

pub record ProfileItem : Type 0 where
  pub id : ℕ
  pub price : ℕ
  pub is_active : Bool

pub record MemberItem : Type 0 where
  pub id : ℕ
  pub member_id : ℕ
  pub item_id : ℕ
  pub purchased_at : ℕ

pub record ClanMember : Type 0 where
  pub id : ℕ
  pub user_id : ℕ

pub record Shop : Type 0 where
  pub book : Book
  pub products : List Product
  pub orders : List Order
  pub coupons : List Coupon
  pub profile_items : List ProfileItem
  pub member_items : List MemberItem
  pub clan_members : List ClanMember

abbrev pub product_key : Product → ℕ
product_key p = p.id

abbrev pub order_key : Order → ℕ
order_key o = o.id

abbrev pub coupon_key : Coupon → ℕ
coupon_key c = c.id

-- A ledger call inside the caller's transaction.
abbrev pub on_book : {A : Type 0} → Tx Book A → Tx Shop A
on_book m s = elim (m s.book) [ ok (a, b) ↦ ok (a, record s { book = b }) | err e ↦ err e ]

abbrev pub save_product : Product → Tx Shop (Unit {0})
save_product p s = ok (tt, record s { products = save_by product_key p s.products })

abbrev pub save_order : Order → Tx Shop (Unit {0})
save_order o s = ok (tt, record s { orders = save_by order_key o s.orders })

abbrev pub is_active_status : ProductStatus → Bool
is_active_status active = true
is_active_status _ = false

abbrev pub is_voucher : ProductCategory → Bool
is_voucher voucher = true
is_voucher _ = false

abbrev pub is_cancelled : OrderStatus → Bool
is_cancelled cancelled = true
is_cancelled _ = false
