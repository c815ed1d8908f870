-- ===== src/Tests.antt =====
-- A small machine, on which the theorems are applied.
mod Fixture
mod Queues
mod Threads
mod Locks
mod Steps
mod Programs
