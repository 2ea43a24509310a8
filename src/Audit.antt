-- ===== src/Audit.antt =====
-- The final-image storage audit, Tools/EmbeddedApplicationMacros/linked_storage_audit.py.
pub mod Ranges
pub mod Symbols
pub mod Coverage
pub mod Budget
pub mod Inventory
pub mod Overlaps
mod Samples
