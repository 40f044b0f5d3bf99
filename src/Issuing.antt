-- ===== src/Issuing.antt =====
-- src/pospay/services: the checks that a customer issues, and the stops on them.
pub mod Items
pub mod Stops
