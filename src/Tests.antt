-- ===== src/Tests.antt =====
-- The theorems applied at concrete inputs: a bank account whose events are registered and encoded,
-- stored, read and handled, a bus for its commands, projections of its events and their instances,
-- and an automation.
mod Data
mod Encoding
mod Storing
mod Iterating
mod Handling
mod Batching
mod Claiming
mod Projecting
mod Sharing
mod Dispatching
mod Leasing
