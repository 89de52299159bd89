-- ===== src/Tests.antt =====
-- Sample tables, and runs of the operations on them.
mod Money
mod Bets
mod Matches
mod Sales
mod Auctions
mod AuctionSteps
mod Rewards
mod Teams
mod Clubs
