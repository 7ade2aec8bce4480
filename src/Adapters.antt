-- ===== src/Adapters.antt =====
-- The adapters of taskguard/v3: their registration, and the capabilities that a mutation needs.
pub mod Registry
pub mod Capabilities
pub mod Conformance
