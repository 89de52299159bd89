-- ===== src/Lib.antt =====
-- potg: the points ledger and the services that move points, of the backend of a community for
-- team games (backend/src/modules).
--
-- The program keeps users, each with a balance of points. Every movement of points is one call of
-- the ledger, which updates the balances and appends one journal row in one database transaction.
-- Matches, betting markets and the shop call the ledger with their own transaction: a stake or a
-- purchase destroys points, a payout or a refund issues them. An auction of players has points of
-- its own, which each captain starts with; when it is completed, those who took part are paid by the
-- ledger. Clans have members with roles, and the Discord bot gives a daily reward and splits a voice
-- channel into teams.
--
-- Files, and the code they are about:
--   Base          shared names: texts, signed integers (Base/Int), tables as lists (Base/Rows,
--                 Base/Keyed), transactions with exceptions (Base/Tx), the limits of text columns
--                 and the comparison of uuids (Base/Texts)
--   Ledger        ledger/ledger.service.ts, ledger/entities/point-tx.entity.ts: transfer, mint,
--                 burn, getBalance, computeBalanceFromLedger, adminSummary. Ledger/Transfer and
--                 Ledger/Effects have the effect of one call, Ledger/Integrity and Ledger/History
--                 the invariants over sequences, Ledger/Issue what callers of mint and burn use.
--   Store         the entities of matches and betting
--   Betting       betting/betting.service.ts: createMarket, placeStake, lockMarket
--   Settlement    betting/betting.service.ts: settleMarket, cancelMarket
--   Match         matches/match.service.ts: create, createTeam, openBetting,
--                 createBettingScenario, lockMatch, and matches/enums/match-status.enum.ts
--   MatchResult   matches/match.service.ts: settleMatch, cancelMatch
--   ShopTables    shop/entities
--   Shop, Orders  shop/shop.service.ts: updateProduct, softDeleteProduct, purchase; markDelivered,
--                 cancelOrder, purchaseProfileItem
--   AuctionTables auctions/entities, and the queries of the bidding service
--   Auction       auctions/services/auctions-bidding.service.ts: selectPlayer,
--                 placeBidWithValidation, confirmCurrentBid, passCurrentPlayer,
--                 autoConfirmOnTimeout, checkAutoConfirm
--   AuctionSetup  auctions/auctions.service.ts: create, join, addPlayer, addPlayers,
--                 removeParticipant, addCaptain, removeCaptain, updateAuctionSettings, deleteAuction
--   AuctionControl auctions/auctions.service.ts: start, reset, complete, pauseAuction,
--                 resumeAuction, pauseTimer, resumeTimer, undoSoldPlayer, nextPlayer,
--                 enterAssignmentPhase, manualAssignPlayer
--   AuctionBalance the invariant of one auction over every sequence of these operations:
--                 AuctionBalance/Owing states the balance, AuctionBalance/Steady the invariant,
--                 AuctionBalance/Steps has the steps and the sequences
--   AuctionRoom   auctions/services/auctions-room-state.service.ts: getRoomState
--   AuctionPayout auctions/services/auctions-admin.service.ts: payoutParticipants, detail
--   Clans         clans/clans.service.ts: create, requestJoin, approveRequest, rejectRequest,
--                 addMember, leaveClan, updateMemberRole, transferMaster, kickMember
--   Attendance    discord-bot/attendance-reward.service.ts: claimDaily with its streak and bonus;
--                 get and getNumber of system-config/system-config.service.ts
--   TeamSplit     discord-bot/commands/team-split.command.ts: shuffle, the groups,
--                 findEmptyVoiceChannels, and what execute decides
--   Tests         sample tables and runs
--
-- How the code is read:
--   * A table is the list of its rows, and a repository call is a query or an update of the list.
--     A row id is a number that is only compared; the nil UUID is 0. A team's id is also the side
--     of a stake, so it is a text. A team is found by its id in any case of letters, as in a uuid
--     column, which gives ids back in lower case; sides are compared as texts. The id of a new row
--     is an argument: the database chooses it.
--   * A service method is a function of the store that returns a value and a new store, or the
--     exception. An exception rolls the store back (`run_tx`). Row locks make concurrent calls a
--     sequence of transactions, which is what the theorems on sequences are about.
--   * `bigint` is a signed integer. The columns of 64 bits are taken as unbounded: amounts near
--     2^63 are outside the model. A `number` that a method takes is a whole number; a fraction is
--     refused by the same test as a number of at most 0, or by the integer column of a bid.
--   * A journal row whose `reason` is longer than 64 characters or whose `ref_type` is longer than 32,
--     and a `winning_option` longer than 64, fail in the database (`value_too_long`). Texts with
--     nothing but spaces beyond the limit, which the database cuts off, are outside the model, and so
--     are the limits of other texts.
--   * The process, the database and its sessions use UTC. `created_at` is a timestamp without time
--     zone, so `AT TIME ZONE 'Asia/Seoul'` on it gives the day of nine hours before (`sql_day`).
--   * `new Date()` is the clock of the store, which does not move inside one transaction.
--   * Memos, notes, names of products, schedules and other columns that no modelled code reads are
--     not kept. All other loops are over lists, so no fuel is needed.
--   * The setup methods of an auction, deleteAuction and most methods on clans run outside a
--     transaction; the model takes each call as one step, so two of them that overlap are
--     outside it. That a failed approval leaves its request approved is modelled. A master who
--     hands the mastership to himself is left out of the sequences: two writes of one row.
--   * JavaScript's `Number` and `Math.random` are arguments. Loops that count down (the streak's
--     eleven days, the shuffle) are recursions on that number. A draw
--     outside its range, which `Math.random` does not give, swaps nothing.
--
-- Not modelled: authentication, sockets, the other commands of the Discord bot, uploads, migrations and
-- the frontend, which are input and output around these services; announcements and the hall of fame of
-- clans, the attendance records and the market gate, which are left for later; and the queries that
-- only list rows.
pub mod Base
pub mod Ledger
pub mod Store
pub mod Betting
pub mod Settlement
pub mod Match
pub mod MatchResult
pub mod ShopTables
pub mod Shop
pub mod Orders
pub mod AuctionTables
pub mod Auction
pub mod AuctionSetup
pub mod AuctionControl
pub mod AuctionBalance
pub mod AuctionRoom
pub mod AuctionPayout
pub mod Clans
pub mod Attendance
pub mod TeamSplit
mod Tests
