-- ===== src/Tests.antt =====
-- Concrete inputs: the server of Redis/Memory with jobs stored as they are.
pub mod Fixtures
mod Broker
mod Worker
mod Loops
mod Listing
mod Running
mod System
mod Commands
mod Dashboard
mod Counting
pub mod Postgres
