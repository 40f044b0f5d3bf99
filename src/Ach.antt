-- ===== src/Ach.antt =====
-- The ACH network, src/pospay/networks/ach: the authorization rules, the adapter that gathers
-- their inputs from the tables, and the ingestion of entries.
pub mod Rules
pub mod Adapter
pub mod Features
pub mod Ingestion
