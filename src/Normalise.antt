-- ===== src/Normalise.antt =====
-- transform/normalise.py
pub mod Roman
pub mod Years
pub mod Forms
pub mod Language
