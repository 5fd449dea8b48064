-- ===== src/Broker.antt =====
-- internal/broker.
pub mod Keys
pub mod Codec
pub mod Network
pub mod Scripts
pub mod RedisBroker
pub mod Interface
pub mod Listing
pub mod Counting
pub mod Reading
pub mod Apart
pub mod Shapes
pub mod Commands
pub mod Tracking
pub mod Lifecycle
pub mod Stats
pub mod Postgres
pub mod PostgresBroker
