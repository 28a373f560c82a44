-- ===== src/Accounts.antt =====
-- The server's accounts: who may do what, the tokens, and the login.
pub mod Errors
pub mod Rbac
pub mod Users
pub mod Lockout
pub mod RefreshTokens
pub mod Families
pub mod Jwt
pub mod Auth
mod Logins
pub mod Sound
pub mod Requests
pub mod Theft
pub mod Tests
