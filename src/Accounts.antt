-- ===== src/Accounts.antt =====
-- src/pospay/services: the accounts of a tenant, and the ACH authorizations on them.
pub mod Numbers
pub mod Authorizations
