-- ===== src/Auth.antt =====
-- src/pospay/auth: passwords, sign-in, tokens, sessions, and what a token gives access to.
pub mod Password
pub mod Login
pub mod Tokens
pub mod Sessions
pub mod Access
