-- ===== src/Lib.antt =====
-- Verification of the Breez SDK core (`libs/sdk-core`): a node on a phone that receives and sends
-- Lightning payments, swaps money between the chain and the node, and keeps its state on a server
-- that several installations of one user share.
--
-- The parts and their files; a path without a directory is in `libs/sdk-core/src`:
--
-- Prelude: tests, lists, results, texts, maps by text, signed integers and machine words. Texts and
-- byte strings are lists of numbers.
--
-- Store: the node's state on the server (`ldk/store`). Store.Versioned is the interface
-- `VersionedStore` as a record of operations over a server's state with the promises of its
-- documentation; Store.Mock is the in-memory server, which keeps them, and Store.Vss is `VssStore`,
-- whose loop over pages runs on fuel: as much as the server's page tokens have steps, plus one.
-- Store.TimeLock is `TimeLock`, with the JSON codec as a parameter. Store.Locking is
-- `LockingStore`: `claim` and `open_lock` are the parts of `new`, `guarded` is what its four
-- methods share. Store.Locking.System puts any number of processes on one server, as a step
-- relation with crashes, passing time and lost confirmations. Store.Keys, Store.Table and
-- Store.Mirroring are `MirroringStore`, its keys and its SQL table. The mirroring store writes
-- through the locking store, which writes through the server: each takes the store below as a
-- parameter.
--
-- Fees: `OpeningFeeParams` and `OpeningFeeParamsMenu` (`models.rs`).
--
-- SwapIn: swaps from the chain into the node (`swap_in`). SwapIn.Model has the data, SwapIn.Onchain
-- `fetch_swap_onchain_data`, SwapIn.Payout `calculate_status` with the two forms of
-- `payout_blocks_left`, SwapIn.Storage the calls of `persist/swap.rs`, SwapIn.Refresh
-- `refresh_swap` and the event of a paid invoice, SwapIn.PaymentRequest `get_payment_request`,
-- SwapIn.Redeem `redeem_swap`, `create_swap` and the event of a new block, SwapIn.Refund
-- `prepare_refund` and `refund`.
--
-- ReverseSwap: swaps from the node to the chain (`swap_out/reverseswap.rs`, with the calls of
-- `persist/reverseswap.rs` in ReverseSwap.Model): the status, the claims and the stored ids.
-- `claim_one` is the body of the loop in `claim_reverse_swaps`. It shares the transactions of
-- SwapIn.Onchain.
--
-- ReverseSwap.Create is `create_reverse_swap` with the checks of `FullReverseSwapInfo`
-- (`models.rs`), and ReverseSwap.Create.Prepare the calls of `BreezServices` that come before it:
-- `fetch_reverse_swap_fees`, `prepare_onchain_payment`, `pay_onchain`. The race between the payment
-- and the polling of the swapper is a parameter, and so are the percentages, which are floats.
--
-- Backup: the database that several devices share. Backup.Rows is what the SQL statements do to
-- tables, Backup.Tables the tables, Backup.Database their triggers and `import_remote_changes`
-- (`persist/sync.rs`, `persist/migrations.rs`), Backup.Transport `LdkBackupTransport` over a
-- versioned store, Backup.Worker `BackupWorker` and Backup.Watcher the loop of `BackupWatcher`
-- (`backup.rs`). Cipher, compression and file format are parameters, and so are what the rest of
-- the app writes at each moment of a run and which step of a run on the own files or database
-- fails.
--
-- PaymentPath: `PaymentPath` and `PaymentPathEdge` (`models.rs`), the fees along a route.
--
-- Payments, Lsp, Send: `send_payment`, `send_spontaneous_payment` and `do_sync`
-- (`breez_services.rs`). Payments has the stored payments (`persist/transactions.rs`), Lsp the
-- provider that the node is connected to (`persist/settings.rs`, `connect_lsp_peer`). Send shares
-- the payment details with Backup.Tables.
--
-- LnurlEndpoint, LnurlPay: `validate_lnurl_pay` (`libs/sdk-common/src/lnurl/specs/pay.rs`) and
-- `lnurl_pay` (`breez_services.rs`), which pays by Send.
--
-- Receiver: `PaymentReceiver` (`receiver.rs`, with `lsp.rs`), which makes an invoice and asks for a
-- channel where the node has too little room.
--
-- Chain: `RedundantChainService` and `get_utxos` (`chain.rs`). `first_answer` is the loop that each
-- call of the service runs over its instances.
--
-- Conventions. A call that changes state returns its result and the new state. A `u64` product or
-- sum is taken modulo 2 ^ 64 and a cast keeps the low bits, as in a release build; `saturating_sub`
-- is the subtraction of the natural numbers. Every loop but the one over pages runs over a list, so
-- that no fuel is needed. Text in errors and log lines are left out where no caller reads them.
-- Server, chain service, node, clock, codecs, parsers of addresses and invoices, and the builders
-- of transactions are parameters.
--
-- Not modelled. Failures of the local SQLite database, but for its primary keys, an insertion that
-- lacks its fees and the steps of `BackupWorker`; the order of Rust's hash maps,
-- which is taken to be the order of insertion; the concurrent calls within one process, which the
-- code makes sequential by key or by one task; scripts, keys and signatures of transactions; HTTP
-- and gRPC, the bindings and the generated code; the rest of LNURL, the input parser, the protocols
-- of the service providers, and the filters of `list_payments`.
mod Prelude
pub mod Store
pub mod Fees
pub mod SwapIn
pub mod ReverseSwap
pub mod Receiver
pub mod Chain
pub mod Backup
pub mod PaymentPath
pub mod Payments
pub mod Lsp
pub mod Send
pub mod LnurlEndpoint
pub mod LnurlPay
