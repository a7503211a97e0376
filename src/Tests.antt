-- ===== src/Tests.antt =====
-- Examples: a small platform, an enrollment on it, and the theorems applied to them.
mod Toy
mod Run
mod Attested
mod Registered
mod Stored
mod Files
mod Configured
mod Built
mod Concurrent
mod Generated
mod Started
mod Logged
mod Genuine
mod Issued
