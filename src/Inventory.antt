-- ===== src/Inventory.antt =====
-- The inventory service (inventory/internal).
pub mod Model
mod Text
pub mod Entity
pub mod Repository
pub mod Bootstrap
pub mod Service
pub mod Converter
pub mod Transport
pub mod Tests
