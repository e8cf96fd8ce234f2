-- ===== src/Auth.antt =====
-- `AuthService` of src/auth/auth.service.ts: logging in, refreshing a token, the reset of a password
-- by a code, the confirmation of an address and its change. The DTOs' fields are arguments.
pub mod Session
pub mod Login
pub mod Reset
pub mod Confirm
pub mod Lookup
pub mod Code
