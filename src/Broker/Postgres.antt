-- ===== src/Broker/Postgres.antt =====
-- The jobs table of internal/broker/postgres.go: its rows, its constraints, and the SQL statements
-- that the broker sends, each one a transaction of its own.
pub mod Table
pub mod Statements
pub mod Rows
pub mod Updates
pub mod Server
pub mod Due
