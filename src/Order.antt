-- ===== src/Order.antt =====
-- The order service (order/internal).
pub mod Model
pub mod Part
pub mod Ports
pub mod Table
pub mod Repository
pub mod Router
pub mod Lifecycle
pub mod Steps
pub mod Transport
pub mod Events
pub mod Client
pub mod Converter
pub mod InMemory
pub mod Samples
mod Tests
pub mod Service
