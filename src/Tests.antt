-- ===== src/Tests.antt =====
-- The theorems at concrete inputs, and runs of the models.
mod Prices
mod Posting
mod Streaming
mod Fetching
mod Ticking
mod Starting
mod Together
mod Living
mod Joining
