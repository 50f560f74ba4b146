-- ===== src/Tests.antt =====
-- Concrete queues, managers and stores, on which the theorems are tried.
mod Queue
mod Graph
mod Statuses
mod Buffer
mod Tokens
mod Pools
mod Locks
mod Workers
mod Batches
mod Programs
mod Handles
mod Limits
mod Monitors
