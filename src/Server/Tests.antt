-- ===== src/Server/Tests.antt =====
-- Runs of the server's parts, and their theorems at concrete inputs.
mod Limits
mod Usages
mod Queues
mod Codes
mod Asks
mod Sessions
mod Vouchers
