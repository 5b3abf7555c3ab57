-- ===== src/Auth.antt =====
-- services/auth-service: local and LDAP logins, refresh tokens, and the second factor.
pub mod Ldap
pub mod Repo
pub mod Handler
pub mod Session
pub mod Mfa
pub mod Steps
pub mod Login
pub mod Refresh
pub mod Factor
pub mod Tests
