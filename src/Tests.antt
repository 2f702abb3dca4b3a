-- ===== src/Tests.antt =====
-- The theorems at concrete inputs: a browser whose world is the time, with answers that lead through
-- the whole flow.
mod World
mod Groups
mod Receipts
mod Contracts
mod Quotes
mod Encoding
mod Network
mod Credential
mod Pages
mod Scripts
mod Views
