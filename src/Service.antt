-- ===== src/Service.antt =====
-- The payment-channel service of the facilitator: its checks of a credential and its actions
-- (packages/facilitator/src/xrpl_mpp_facilitator/paychannel_service.py).
pub mod World
pub mod Steps
pub mod Signature
pub mod Claim
pub mod Reply
pub mod Verify
pub mod Safe
pub mod Paid
pub mod Open
pub mod Envelope
pub mod Terms
pub mod Authentic
pub mod Session
pub mod Transaction
pub mod Answers
pub mod Sound
