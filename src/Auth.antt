-- ===== src/Auth.antt =====
-- Users, sessions and permissions (netops-backend/auth/*.py, routes/auth.py and routes/users.py).
pub mod Store
pub mod Http
pub mod Audit
pub mod Tokens
pub mod Totp
pub mod Rbac
pub mod Users
pub mod UserRoutes
pub mod Ldap
pub mod Login
pub mod SecondFactor
pub mod Sessions
pub mod Examples
