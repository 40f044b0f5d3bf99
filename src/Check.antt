-- ===== src/Check.antt =====
-- The check network, src/pospay/networks/check: the matching rules, the adapter that gathers their
-- inputs from the tables, and the ingestion of presented checks.
pub mod Rules
pub mod Adapter
pub mod Features
pub mod Ingestion
