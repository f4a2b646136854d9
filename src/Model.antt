-- ===== src/Model.antt =====
-- src/model: the records that the services exchange and the failures that they throw.
pub mod Manifest
pub mod Failure
