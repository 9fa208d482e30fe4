-- ===== src/ClusterSpec.antt =====
-- container_service_extension/rde: the specification of a cluster, as the models of RDE 2.1 have it, built
-- from the status of a cluster (utils.py), and the validation of a request against it
-- (validators/validator_rde_2_x.py).
pub mod Model
pub mod Construct
pub mod Tree
pub mod Update
pub mod Changes
pub mod Built
pub mod Dropped
pub mod Compared
pub mod Samples
mod Tests
