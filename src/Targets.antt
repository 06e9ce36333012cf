-- ===== src/Targets.antt =====
-- The backend's view of the Targets: which boot each one is in, and which ACL it has applied.
pub mod BootRegistry
pub mod AclDelivery
pub mod AclRefresh
