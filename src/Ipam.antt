-- ===== src/Ipam.antt =====
-- IP address management (netops-backend/routes/ipam_router.py, services/ipam_validators.py,
-- services/ipam_csv_import.py, services/phpipam_import.py).
pub mod Network
pub mod Sample
pub mod Examples
pub mod RouteExamples
pub mod Cidrs
pub mod Store
pub mod Ranges
pub mod Validators
pub mod CsvRows
pub mod CsvImport
pub mod AggregateImport
pub mod Utilization
pub mod Resolve
pub mod AggregateRoutes
pub mod PrefixImport
pub mod PrefixRoutes
pub mod Merge
pub mod Json
pub mod Phpipam
pub mod Netbox
pub mod Imports
pub mod Requests
