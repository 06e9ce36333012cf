-- ===== src/Examples.antt =====
-- Runs of the components on concrete inputs.
pub mod Limits
pub mod Publishing
pub mod Bridging
pub mod Booting
pub mod Delivering
pub mod Refreshing
pub mod Administering
pub mod Encoding
pub mod Serving
pub mod Storing
pub mod Enrolling
