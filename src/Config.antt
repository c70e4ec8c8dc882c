-- ===== src/Config.antt =====
-- The backups of configurations and their compliance
-- (netops-backend/routes/config_module.py).
pub mod Store
pub mod Backups
pub mod Policies
pub mod Reports
pub mod Compliance
pub mod Schedules
pub mod Xml
pub mod Examples
