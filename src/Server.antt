-- ===== src/Server.antt =====
-- The server, server/src.
pub mod Commands
pub mod Confirm
pub mod Ledger
pub mod Earn
pub mod LoginCode
pub mod RateLimit
pub mod Voucher
mod Tests
