-- ===== src/Gateway.antt =====
-- opensearch-gateway/services/os_data_service.go: what the operator asks of and tells OpenSearch
-- while it moves nodes.
pub mod Settings
pub mod Exclusion
pub mod Shards
pub mod Health
pub mod Prepare
pub mod Writes
