-- ===== src/Store.antt =====
-- The stores of `libs/sdk-core/src/ldk/store`: the versioned store interface, its implementations in memory
-- and on the server, the time lock, the locking store and the mirroring store.
pub mod Versioned
pub mod Mock
pub mod Vss
pub mod TimeLock
pub mod Locking
pub mod Keys
pub mod Table
pub mod Mirroring
mod Tests
