-- ===== src/PayChannel.antt =====
-- The durable payment-channel state of
-- packages/facilitator/src/xrpl_mpp_facilitator/paychannel_store.py.
pub mod Record
pub mod Evolution
pub mod Key
pub mod Mutations
pub mod Store
pub mod Scan
pub mod Redis
