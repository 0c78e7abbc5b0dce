-- ===== src/Store/Tests.antt =====
-- The stores of `libs/sdk-core/src/ldk/store` at concrete inputs.
mod LockTests
mod MirrorTests
