-- ===== src/Connections.antt =====
-- The connections to devices (netops-backend/utils/connection_manager.py,
-- netops-backend/utils/device_connection_manager.py).
pub mod Manager
pub mod Devices
pub mod Examples
