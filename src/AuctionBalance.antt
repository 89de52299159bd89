-- ===== src/AuctionBalance.antt =====
-- The invariant of one auction, for the operations of auctions.service.ts and of
-- services/auctions-bidding.service.ts in backend/src/modules/auctions.
pub mod Members
pub mod Owing
pub mod Moves
pub mod Steady
pub mod Trades
pub mod Teams
pub mod Sold
pub mod Refunds
pub mod Undo
pub mod ResetRows
pub mod Resets
pub mod Joins
pub mod Pending
pub mod Captains
pub mod SaleRows
pub mod Undone
pub mod Lists
pub mod Steps
pub mod History
