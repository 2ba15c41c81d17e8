-- ===== src/Tests.antt =====
-- Runs of the modelled code on concrete values.
mod Transactions
mod Routing
mod Iteration
mod Containers
mod Locking
mod Receiving
mod Answering
mod Processing
mod Notifying
mod Caching
mod Sending
mod Mixing
