-- ===== src/Client/Tests.antt =====
-- Runs of the agent's parts, and their theorems at concrete inputs.
mod Codes
mod Clocks
mod Warnings
mod Activities
mod Ledgers
mod Freezes
