-- ===== src/Replay.antt =====
-- Replay protection: packages/facilitator/src/xrpl_mpp_facilitator/replay_store.py.
pub mod Claims
pub mod Reservation
pub mod Retention
pub mod RedisClaims
