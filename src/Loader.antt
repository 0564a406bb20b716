-- ===== src/Loader.antt =====
-- load/postgres.py: the idempotent load into the catalogue.
pub mod Tables
pub mod People
pub mod Serials
pub mod Books
pub mod Batches
pub mod Reports
