-- ===== src/Lib.antt =====
-- A model of endstone-exchange, a player-driven exchange for a Minecraft Bedrock server: order books for items,
-- accounts in cents with a ledger, deliveries of items, listings in item frames, and transfers from and to
-- the currency UMoney of the server.
--
-- The parts of the program and the files that model them:
--   Money, Bank: `Cents`, `checkedProduct`, and the statements over accounts and ledger (src/exchange_service.cpp).
--   Tx: exceptions as values, and the RAII class `Transaction` of src/database.cpp: a body that throws is rolled back.
--   Table, Reads: SELECT, UPDATE, DELETE, SUM, ORDER BY, LIMIT and the JOIN with the markets, over lists of rows.
--   Domain, Store: the enumerations and values of include/endstone_exchange/domain.hpp, and the tables of
--     src/database.cpp. `Db` is the whole database.
--   Orders, Matching: `validateRequest`, `placeOrder`, `placeBuy`, `placeSell`, `placeSellLocked`, `ensureAccount`,
--     `lockActiveBook`, `addDelivery`. The loops over the rows of the other side are `match_loop`.
--   Cancel: `cancelOrder`, `retireMarket`.   Escrows: the functions named …SellEscrow….
--   Deliveries: …DeliveryClaim… and `pendingDeliveries`.   Frames: …FrameListing….
--   Transfers: …EconomyTransfer… and `economyBackingDeficit`.
--   Markets, Markets/Views: `activateMarket`, `closeMarket`, and the views of markets and order books.
--   Umoney: `decideUmoneyMutation` (include/endstone_exchange/umoney_gateway.hpp) and
--     `processEconomyTransfer` (src/plugin.cpp), which drives Transfers.
--   Umoney/Direct: `spendableBalance`, `fundDirectBalance` and `sweepDirectBalances` of src/plugin.cpp.
--   Trading: sequences of calls of the service.   Gate: `InteractionGate` (src/interaction_gate.cpp).
--   Bytes, Nbt: the readers of little-endian bytes, and the codec of src/nbt_codec.cpp: its `Writer` in Nbt, its
--     `Reader` in Nbt/Decoder, the tags that it can store in Nbt/Layout.
--   Leveldb, Structure: `readVarUint32`, `inspectWriteBatch` and `inspectLevelDbLog` (Leveldb/Logs), and the class
--     `BedrockNbtReader` with the search for the item of a frame, all of src/structure_reader.cpp.
--   Packet: src/hologram_packet.cpp.
--   Texts, Trade, Trade/Forms: the actions, default prices, and the parsers of answers of src/trade_form.cpp.
--   Display: chunks, the support of an item frame and printed sums of src/market_display.cpp.
--   Config, Config/Values, Config/Load: `validate`, the readers of single values, and `load` on the lines of the
--     file, of src/config.cpp.
--   Inventory, Inventory/Escrow: markers of items and the operations on inventories of src/inventory_escrow.cpp,
--     and `matchesItemIdentity` of src/item_identity.cpp.
--   Examples: a small world, and the theorems at it.
-- An operation of the class `ExchangeService` is a function of the database: a body in `Tx` is what stands
-- between the construction of a `Transaction` and its commit, and the function under the C++ name in snake case runs
-- it. The operations meet in the database alone: `placeSellLocked` runs inside `executeSellEscrow`, and every
-- function that moves money calls `credit` or `debit`.
--
-- How the model reads the code:
--   The database is one sequential store. The code takes its row locks with FOR UPDATE, and a transaction
--   is atomic here; two transactions that interleave are not modelled. A rollback also takes back the
--   AUTO_INCREMENT counters. Time stamps are kept only as NULL or not NULL.
--   The connection asks for CLIENT_FOUND_ROWS, so the affected rows of an UPDATE are the rows that it matches.
--   Columns that a CHECK or a guard keeps at 0 or above are natural numbers; arguments that a guard tests
--   are integers. `cents_max` is the limit of the 64-bit type; a balance beyond it is an exception, as
--   BIGINT has it. Counts of items stay below the 32-bit limit by `max_order_quantity` for a single order;
--   sums of them are not bounded here. Texts are compared exactly, without a collation.
--   The loops of the service are over lists of rows that were read before them, so they take no fuel. The
--   parsers take fuel: `decode` two units per byte and one more, which its nesting and its entries never use
--   up; the reader of structures two units per byte and two more; the rounds over a log one per byte and one
--   more, since each round moves on; the answer of a form one per byte (Trade/Fuel); `splitStacks` one per item
--   (Inventory/Splitting); and the digits of a number one more than the number. Where the fuel would run out
--   the parsers of bytes have a result of their own, `out_of_fuel`, so that it is told apart from an exception.
--   A text is a list of bytes, a number of a tag and a float are their bit patterns, and an exception of a
--   parser carries its kind in place of its text.
--   The C++ readers of nested tags recurse on the native stack, whose depth is not bounded here. Two compounds are
--   equal by their bit patterns where `==` of Endstone takes 0.0 and -0.0 as equal.
--   An inventory is its slots and the off hand, and a stack is what the code reads and sets of it. Equal
--   amounts may be sorted in another order than by `std::sort`; no theorem depends on that order. The sums of
--   amounts are not bounded by the type int.
--
-- Not modelled: the MySQL connector and the migrations, `positiveBalances` (it sorts by a time stamp), the
-- column operation_key of the transfers, the event handlers and forms of the plugin, localized texts (also
-- those of src/trade_form.cpp, `marketHologramText` and `describeItemRequirements`), `sameHologramAnchor`, the
-- reading of files and directories with its limit of 64 MiB, `writeTemplate`, and the item that stands for a
-- receipt. The digest of an item, the UMoney plugin and the types of Endstone are not code of the repository:
-- `activate_market` takes the digest as an argument, `process_transfer` takes a `Gateway`, the codec takes a
-- `Host` (the numbers of the tag types, which are told apart by them, and `insert_or_assign`), and the
-- inventories take `Compounds`.
pub mod Common
pub mod Table
pub mod Tx
pub mod Money
pub mod Bank
pub mod Domain
pub mod Store
pub mod Reads
pub mod Orders
pub mod Matching
pub mod Cancel
pub mod Escrows
pub mod Deliveries
pub mod Frames
pub mod Transfers
pub mod Markets
pub mod Umoney
pub mod Trading
pub mod Gate
pub mod Bytes
pub mod Nbt
pub mod Leveldb
pub mod Structure
pub mod Packet
pub mod Texts
pub mod Trade
pub mod Display
pub mod Config
pub mod Inventory
pub mod Examples
