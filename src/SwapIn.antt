-- ===== src/SwapIn.antt =====
-- Swaps from the chain into the node (`libs/sdk-core/src/swap_in/`): a user pays to an address, the
-- swapper pays the node's invoice for it, and what is left can be refunded after a lock time.
pub mod Model
pub mod Onchain
pub mod Equality
pub mod Refresh
pub mod PaymentRequest
pub mod Refund
pub mod Redeem
pub mod Payout
mod Tests
pub mod Storage
