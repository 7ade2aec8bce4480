-- ===== src/Gates.antt =====
-- The pure decision gates of taskguard/v3: each module models one file of that folder.
pub mod KillSwitch
pub mod Terminal
pub mod Production
pub mod Readiness
pub mod Release
pub mod Policy
pub mod Sandbox
pub mod Health
