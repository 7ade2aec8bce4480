-- ===== src/Examples.antt =====
-- The theorems at concrete inputs: one instance of each, on small data of the kind that the code handles.
mod Actions
mod Guards
mod Blobs
mod Fuses
mod Release
mod Effects
mod Parts
mod Contracts
mod ContractsV3
mod States
