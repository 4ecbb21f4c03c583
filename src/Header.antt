-- ===== src/Header.antt =====
-- The WWW-Authenticate challenges of packages/core/src/xrpl_mpp_core/helpers.py: how they are
-- rendered, and how they are read back.
pub mod Cursor
pub mod Params
pub mod Challenge
pub mod Quoted
pub mod Loop
pub mod Rounds
pub mod Fields
pub mod RoundTrip
pub mod Forward
pub mod Total
