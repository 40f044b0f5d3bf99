-- ===== src/Web.antt =====
-- src/pospay/web: the limit on requests, the address they come from, and the pages of a list.
pub mod RateLimit
pub mod ClientIp
pub mod Pagination
