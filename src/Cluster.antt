-- ===== src/Cluster.antt =====
-- container_service_extension/rde/backend/cluster_service_2_x.py: the operations of a cluster that
-- is a defined entity, each in its two parts, the request and the thread that does the work.
pub mod Phase
pub mod World
pub mod Start
pub mod Cases
pub mod Requests
pub mod Targets
pub mod Nodes
pub mod Resize
pub mod Ends
pub mod Failures
pub mod Counts
pub mod Create
pub mod Delete
pub mod Upgrade
pub mod Order
pub mod Wanted
pub mod Upgraded
pub mod Rollback
pub mod Kept
pub mod Orphans
mod Tests
